-- ===== src/Mailtx/Run/Transfers.antt =====
-- Transfers of a run (`run` of mailtx/src/main.rs): a leg is stored, or completed by its counterpart.
use mailmux.Base.{
  Bool, Has, Has-snoc, Option, Result, String, [], ap, bail, err, false, go_on, inl, inr, lift,
  none, ok, refl, some, subst, suc, sym, true, ℕ, ◌++◌, ◌∷◌, ◌≡◌,
}
use mailmux.Base.Effects.{◌>>=◌, ◌>>◌}
use mailmux.Mailtx.{CanonicalTransaction, MailtxConfig}
use mailmux.Mailtx.Books.{
  Bookkeeping, Books, Metrics, Outside, acknowledge, attempt, caught, count_request, measure,
  post_transaction, run_statement, statement,
}
use mailmux.Mailtx.Run.{
  called, coalesce, coalesced, leg_of, match_leg, store_leg, stored, transfer_of, transfer_with,
}
use mailmux.Mailtx.Run.Flushing.{deleted-Advance, posted-Advance}
use mailmux.Mailtx.Run.Progression.{
  Advance, Advance-trans, Advance-unchanged, Settled, go_on-Advance,
}
use mailmux.Mailtx.Store.{InsertLeg, PendingStore, delete_leg, find_match, insert_leg, same_leg}
use mailmux.Mailtx.Store.Expiry.{Answers, IsOldest, counterpart_parts, find_match-Answers}
use mailmux.Mailtx.Store.Keys.{IsKeyed, insert_leg-IsKeyed, insert_leg-kept}
use mailmux.Mailtx.Transfer.{RuleMatch, opposite}

module _ (env : Outside) (config : MailtxConfig)
    (Meant : CanonicalTransaction → RuleMatch → Type 0) where
  abbrev pub Advances : {A : Type 0} → Bookkeeping A → Type 0
  Advances step = (w : Books) → IsKeyed w.store → Advance env config Meant w (step w).1

  pub >>=-Advances :
      {A B : Type 0} (step : Bookkeeping A) (f : A → Bookkeeping B)
      → Advances step
      → ((a : A) → Advances (f a))
      → Advances (step >>= f)
  >>=-Advances step f p q w k =
      go_on-Advance env config Meant w f (step w) (p w k) (λ a. q a (step w).1 (p w k).keyed)

  -- Steps that touch neither the store nor the posted transactions.
  pub measure-Advances : (f : Metrics → Metrics) → Advances (measure f)
  measure-Advances f w k = Advance-unchanged env config Meant w _ k refl refl

  pub bail-Advances : (e : String) → Advances {A = Unit {0}} (bail e)
  bail-Advances e w k = Advance-unchanged env config Meant w w k refl refl

  pub lift-Advances : {A : Type 0} (r : Result A) → Advances (lift r)
  lift-Advances r w k = Advance-unchanged env config Meant w w k refl refl

  -- The rest of a run is given what an earlier step has found.
  pub lift-then-Advances :
      {A B : Type 0} (r : Result A) (f : A → Bookkeeping B)
      → ((a : A) → r ≡ ok a → Advances (f a))
      → Advances (lift r >>= f)
  lift-then-Advances (ok a) f g w k = g a refl w k
  lift-then-Advances (err e) f g w k = Advance-unchanged env config Meant w w k refl refl

  pub called-then-Advances :
      {A B : Type 0} (f : ℕ → A) (g : A → Bookkeeping B)
      → ((n : ℕ) → Advances (g (f n)))
      → Advances ((λ w. (ok (f w.tick), record w { tick = suc w.tick })) >>= g)
  called-then-Advances f g h w k =
      Advance-trans env config Meant
        (Advance-unchanged env config Meant w (record w { tick = suc w.tick }) k refl refl)
        (h w.tick (record w { tick = suc w.tick }) k)

  pub called-Advances : {A : Type 0} (f : ℕ → Result A) → Advances (called env config f)
  called-Advances f w k = Advance-unchanged env config Meant w _ k refl refl

  pub attempt_post-Advances :
      (tx : CanonicalTransaction) → Advances (attempt (post_transaction env config tx))
  unfolding post_transaction
  attempt_post-Advances tx w k = go (env.post w.tick tx)
    where
      go :
          (answer : Result (Option String))
          → Advance env config Meant w (acknowledge env config tx w answer).1
      go (err e) = Advance-unchanged env config Meant w _ k refl refl
      go (ok id) = posted-Advance env config Meant w _ tx k refl refl

  coalesce-Advance :
      (tx : CanonicalTransaction) (rule : RuleMatch) (id now : ℕ) (w : Books)
      → Meant tx rule
      → IsKeyed w.store
      → IsOldest rule.rule_id (opposite rule.leg) (env.units tx.amount) now w.store id
      → Advance env config Meant w (coalesce env config tx rule id w).1
  unfolding coalesce post_transaction statement
  coalesce-Advance tx rule id now w meant k found =
      go (env.post w.tick (transfer_of env config tx rule))
    where
      transfer : CanonicalTransaction
      transfer = transfer_of env config tx rule

      acked : Books
      acked = record w { posted = w.posted ++ (transfer ∷ []); tick = suc w.tick }

      parts :
          (found.row.rule_id ≡ rule.rule_id)
          × ((found.row.amount_units ≡ env.units tx.amount)
              × (same_leg found.row.leg (opposite rule.leg) ≡ true))
      parts =
          counterpart_parts rule.rule_id (opposite rule.leg) (env.units tx.amount) now w.store
            found.row found.counterpart

      settled : Settled env config Meant found.row (w.posted ++ (transfer ∷ []))
      settled = inr (record {
        tx = tx;
        rule = rule;
        meant = meant;
        there = Has-snoc transfer w.posted;
        same_rule = parts.0;
        same_amount = parts.1.0;
        other_leg = parts.1.1;
      })

      delete :
          (b : Bool) (receipt : Option String)
          → Advance env config Meant w
              (go_on
                (λ done.
                  count_request "post_transaction" "success"
                  >> measure (λ m. record m {
                    transfers_coalesced = suc m.transfers_coalesced;
                    result = some "transfer_coalesced";
                    firefly_transaction_id = receipt;
                  }))
                (run_statement env config acked b (tt, delete_leg id w.store))).1
      delete true receipt = posted-Advance env config Meant w _ transfer k refl refl
      delete false receipt =
          deleted-Advance env config Meant w _ found.row transfer k
            (λ q m e. k.unique q found.row m found.there e)
            (ap (λ n. delete_leg n w.store) (sym found.named)) refl settled

      go :
          (answer : Result (Option String))
          → Advance env config Meant w
              (go_on
                (coalesced env config id)
                (caught (acknowledge env config transfer w answer))).1
      go (err e) = Advance-unchanged env config Meant w _ k refl refl
      go (ok receipt) = delete (env.sql_fails (suc w.tick)) receipt

  store_leg-Advances :
      (tx : CanonicalTransaction) (rule : RuleMatch) → Advances (store_leg env config tx rule)
  unfolding store_leg statement
  store_leg-Advances tx rule w k = go (env.sql_fails w.tick)
    where
      args : InsertLeg
      args = leg_of env config tx rule

      inserted : Bool × PendingStore
      inserted = insert_leg (env.clock w.tick) args w.store

      grown :
          (w' : Books)
          → w'.store ≡ inserted.1
          → w'.posted ≡ w.posted
          → Advance env config Meant w w'
      grown w' s p = record {
        keyed = subst IsKeyed (sym s) (insert_leg-IsKeyed (env.clock w.tick) args w.store k);
        monotone = λ t m. subst (Has t) (sym p) m;
        safe = λ r m. inl (
            subst (λ (x : PendingStore). Has r x.rows) (sym s)
              (insert_leg-kept (env.clock w.tick) args w.store r m));
      }

      noted :
          (b : Bool)
          → Advance env config Meant w
              (stored env config b (record w { store = inserted.1; tick = suc w.tick })).1
      noted true = grown _ refl refl
      noted false = grown _ refl refl

      go :
          (b : Bool)
          → Advance env config Meant w
              (go_on (stored env config) (run_statement env config w b inserted)).1
      go true = Advance-unchanged env config Meant w _ k refl refl
      go false = noted inserted.0

  pub transfer_with-Advances :
      (tx : CanonicalTransaction) (rule : RuleMatch) (path : Option String)
      → Meant tx rule
      → Advances (transfer_with env config tx rule path)
  unfolding statement
  transfer_with-Advances tx rule none meant w k = Advance-unchanged env config Meant w w k refl refl
  transfer_with-Advances tx rule (some path) meant w k =
      go (env.sql_fails w.tick)
        (find_match rule.rule_id (opposite rule.leg) (env.units tx.amount) (env.clock w.tick)
          w.store)
        (find_match-Answers rule.rule_id (opposite rule.leg) (env.units tx.amount)
          (env.clock w.tick) w.store)
    where
      asked : Books
      asked = record w { tick = suc w.tick }

      idle : Advance env config Meant w asked
      idle = Advance-unchanged env config Meant w asked k refl refl

      go :
          (b : Bool) (o : Option ℕ)
          → Answers rule.rule_id
              (opposite rule.leg)
              (env.units tx.amount)
              (env.clock w.tick)
              w.store
              o
          → Advance env config Meant w
              (go_on (match_leg env config tx rule) (run_statement env config w b (o, w.store))).1
      go true o answers = idle
      go false none answers =
          Advance-trans env config Meant idle (store_leg-Advances tx rule asked k)
      go false (some id) found =
          Advance-trans env config Meant idle
            (coalesce-Advance tx rule id (env.clock w.tick) asked meant k found)
