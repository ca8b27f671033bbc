-- ===== src/Mailtx/Run/Flushing.antt =====
-- The expired legs of a run (`run` of mailtx/src/main.rs).
use mailmux.Base.{
  All, All-map, All-of-Has, Bool, Has, Has-append_left, Has-snoc, List, Option, Result, String, [],
  err, false, go_on, inl, inr, none, ok, refl, some, subst, suc, sym, true, ℕ_discrete, ◌++◌, ◌∷◌,
  ◌≡◌, ◌⊎◌,
}
use mailmux.Base.Effects.{◌>>◌}
use mailmux.Mailtx.{CanonicalTransaction, MailtxConfig}
use mailmux.Mailtx.Books.{
  Books, Outside, acknowledge, caught, count_request, measure, post_transaction, run_statement,
  statement,
}
use mailmux.Mailtx.Run.{fallback, flush_if, flush_leg, flush_legs, flushed}
use mailmux.Mailtx.Run.Progression.{
  Advance, Advance-trans, Advance-unchanged, Settled, go_on-Advance,
}
use mailmux.Mailtx.Store.{PendingStore, PendingTransfer, delete_leg, drain_expired}
use mailmux.Mailtx.Store.Expiry.{drain_expired-Has}
use mailmux.Mailtx.Store.Keys.{Has-delete_leg, IsKeyed, delete_leg-Has, delete_leg-IsKeyed}
use mailmux.Mailtx.Transfer.{RuleMatch}

module _ (env : Outside) (config : MailtxConfig)
    (Meant : CanonicalTransaction → RuleMatch → Type 0) where
  -- No other pending leg has the id of `r`.
  abbrev pub Sole : PendingTransfer → PendingStore → Type 0
  Sole r s = (q : PendingTransfer) → Has q s.rows → q.id ≡ r.id → q ≡ r

  abbrev Shrinks : Books → Books → Type 0
  Shrinks w w' = (q : PendingTransfer) → Has q w'.store.rows → Has q w.store.rows

  -- A transaction that settles the leg is posted, and then the leg's row is deleted.
  pub deleted-Advance :
      (w w' : Books) (r : PendingTransfer) (tx : CanonicalTransaction)
      → IsKeyed w.store
      → Sole r w.store
      → w'.store ≡ delete_leg r.id w.store
      → w'.posted ≡ w.posted ++ (tx ∷ [])
      → Settled env config Meant r (w.posted ++ (tx ∷ []))
      → Advance env config Meant w w'
  deleted-Advance w w' r tx k sole s p settled = record {
    keyed = subst IsKeyed (sym s) (delete_leg-IsKeyed r.id w.store k);
    monotone = λ t m. subst (Has t) (sym p) (Has-append_left t w.posted (tx ∷ []) m);
    safe = λ q m. kept q m (ℕ_discrete q.id r.id);
  }
    where
      kept :
          (q : PendingTransfer)
          → Has q w.store.rows
          → Dec (q.id ≡ r.id)
          → Has q w'.store.rows ⊎ Settled env config Meant q w'.posted
      kept q m (yes e) = inr (
          subst (λ (x : PendingTransfer). Settled env config Meant x w'.posted) (sym (sole q m e))
            (subst (Settled env config Meant r) (sym p) settled))
      kept q m (no n) =
          inl
            (subst (λ (x : PendingStore). Has q x.rows) (sym s) (Has-delete_leg r.id w.store q m n))

  pub posted-Advance :
      (w w' : Books) (tx : CanonicalTransaction)
      → IsKeyed w.store
      → w'.store ≡ w.store
      → w'.posted ≡ w.posted ++ (tx ∷ [])
      → Advance env config Meant w w'
  posted-Advance w w' tx k s p = record {
    keyed = subst IsKeyed (sym s) k;
    monotone = λ t m. subst (Has t) (sym p) (Has-append_left t w.posted (tx ∷ []) m);
    safe = λ r m. inl (subst (λ (x : PendingStore). Has r x.rows) (sym s) m);
  }

  flush_leg-Advance :
      (r : PendingTransfer) (w : Books)
      → IsKeyed w.store
      → Sole r w.store
      → Advance env config Meant w (flush_leg env config r w).1
        × Shrinks w (flush_leg env config r w).1
  unfolding flush_leg post_transaction statement
  flush_leg-Advance r w k sole = go (env.post w.tick (fallback env config r))
    where
      acked : Books
      acked = record w { posted = w.posted ++ (fallback env config r ∷ []); tick = suc w.tick }

      delete :
          (b : Bool)
          → (let w' : Result (Unit {0}) × Books =
                go_on
                  (λ done.
                    count_request "post_transaction" "success"
                    >> measure (λ m. record m { transfers_expired = suc m.transfers_expired }))
                  (run_statement env config acked b (tt, delete_leg r.id w.store)) in
              Advance env config Meant w w'.1 × Shrinks w w'.1)
      delete true = (posted-Advance w _ (fallback env config r) k refl refl, λ q m. m)
      delete false = (
        deleted-Advance w _ r (fallback env config r) k sole refl refl
            (inl (Has-snoc (fallback env config r) w.posted)),
        λ q m. delete_leg-Has r.id w.store q m,
      )

      go :
          (answer : Result (Option String))
          → (let w' : Result (Unit {0}) × Books =
                go_on
                  (flushed env config r)
                  (caught (acknowledge env config (fallback env config r) w answer)) in
              Advance env config Meant w w'.1 × Shrinks w w'.1)
      go (err e) = (Advance-unchanged env config Meant w _ k refl refl, λ q m. m)
      go (ok id) = delete (env.sql_fails (suc w.tick))

  flush_legs-Advance :
      (rs : List PendingTransfer) (w : Books)
      → IsKeyed w.store
      → All (λ r. Sole r w.store) rs
      → Advance env config Meant w (flush_legs env config rs w).1
  unfolding flush_legs
  flush_legs-Advance [] w k h = Advance-unchanged env config Meant w w k refl refl
  flush_legs-Advance (r ∷ rs) w k (sole, h) =
      let step = flush_leg-Advance r w k sole in
      go_on-Advance env config Meant w (λ done. flush_legs env config rs) (flush_leg env config r w)
        step.0
        (λ done. flush_legs-Advance rs (flush_leg env config r w).1 step.0.keyed (
          All-map (λ x. Sole x w.store) (λ x. Sole x (flush_leg env config r w).1.store) rs
            (λ x f q m. f q (step.1 q m)) h))

  -- The legs that are older than the window are flushed, and none is lost.
  pub flush_if-Advance :
      (w : Books)
      → IsKeyed w.store
      → Advance env config Meant w (flush_if env config config.state_db w).1
  unfolding statement
  flush_if-Advance w k = go config.state_db
    where
      drained :
          (b : Bool)
          → Advance env config Meant w
              (go_on (flush_legs env config) (
                run_statement env config w b (drain_expired (env.clock w.tick) w.store, w.store))).1
      drained true = Advance-unchanged env config Meant w _ k refl refl
      drained false =
          Advance-trans env config Meant
            (Advance-unchanged env config Meant w (record w { tick = suc w.tick }) k refl refl)
            (flush_legs-Advance (drain_expired (env.clock w.tick) w.store)
              (record w { tick = suc w.tick }) k
              (All-of-Has (λ r. Sole r w.store) (drain_expired (env.clock w.tick) w.store)
                (λ r m q n e.
                  k.unique q r n (drain_expired-Has (env.clock w.tick) w.store r m).0 e)))

      go : (path : Option String) → Advance env config Meant w (flush_if env config path w).1
      go none = Advance-unchanged env config Meant w w k refl refl
      go (some path) = drained (env.sql_fails w.tick)
