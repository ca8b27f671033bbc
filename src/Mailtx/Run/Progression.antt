-- ===== src/Mailtx/Run/Progression.antt =====
-- What a run of mailtx may do to the pending legs and to the posted transactions (`run` of
-- mailtx/src/main.rs), and how such steps follow one another.
use mailmux.Base.{Has, List, Result, err, go_on, inl, inr, ok, subst, sym, true, ◌≡◌, ◌⊎◌}
use mailmux.Mailtx.{CanonicalTransaction, MailtxConfig}
use mailmux.Mailtx.Books.{Bookkeeping, Books, Outside}
use mailmux.Mailtx.Run.{fallback, transfer_of}
use mailmux.Mailtx.Store.{PendingStore, PendingTransfer, same_leg}
use mailmux.Mailtx.Store.Keys.{IsKeyed}
use mailmux.Mailtx.Transfer.{RuleMatch, opposite}

-- `Meant` says which transactions the run may book as halves of a transfer, and by which rule.
module _ (env : Outside) (config : MailtxConfig)
    (Meant : CanonicalTransaction → RuleMatch → Type 0) where
  -- A transfer was posted for a transaction of the run that is the leg's counterpart.
  pub record Coalesced (r : PendingTransfer) (posted : List CanonicalTransaction) : Type 0 where
    pub tx : CanonicalTransaction
    pub rule : RuleMatch
    pub meant : Meant tx rule
    pub there : Has (transfer_of env config tx rule) posted
    pub same_rule : r.rule_id ≡ rule.rule_id
    pub same_amount : r.amount_units ≡ env.units tx.amount
    pub other_leg : same_leg r.leg (opposite rule.leg) ≡ true

  -- The endpoint has acknowledged the leg, alone or as half of a transfer.
  abbrev pub Settled : PendingTransfer → List CanonicalTransaction → Type 0
  Settled r posted = Has (fallback env config r) posted ⊎ Coalesced r posted

  pub record Advance (w w' : Books) : Type 0 where
    pub keyed : IsKeyed w'.store
    pub monotone : (tx : CanonicalTransaction) → Has tx w.posted → Has tx w'.posted
    pub safe :
        (r : PendingTransfer) → Has r w.store.rows → Has r w'.store.rows ⊎ Settled r w'.posted

  Settled-monotone :
      (r : PendingTransfer) (ps qs : List CanonicalTransaction)
      → ((tx : CanonicalTransaction) → Has tx ps → Has tx qs)
      → Settled r ps
      → Settled r qs
  Settled-monotone r ps qs f (inl h) = inl (f (fallback env config r) h)
  Settled-monotone r ps qs f (inr c) = inr (record {
    tx = c.tx;
    rule = c.rule;
    meant = c.meant;
    there = f (transfer_of env config c.tx c.rule) c.there;
    same_rule = c.same_rule;
    same_amount = c.same_amount;
    other_leg = c.other_leg;
  })

  pub Advance-trans : {w w' w'' : Books} → Advance w w' → Advance w' w'' → Advance w w''
  Advance-trans {w} {w'} {w''} p q = record {
    keyed = q.keyed;
    monotone = λ tx m. q.monotone tx (p.monotone tx m);
    safe = λ r m. elim (p.safe r m) [
      | inl k ↦ q.safe r k
      | inr s ↦ inr (Settled-monotone r w'.posted w''.posted q.monotone s)
    ];
  }

  -- A step that leaves the store as it is, or posts something and leaves it.
  pub Advance-unchanged :
      (w w' : Books) → IsKeyed w.store → w'.store ≡ w.store → w'.posted ≡ w.posted → Advance w w'
  Advance-unchanged w w' k s p = record {
    keyed = subst IsKeyed (sym s) k;
    monotone = λ tx m. subst (Has tx) (sym p) m;
    safe = λ r m. inl (subst (λ (x : PendingStore). Has r x.rows) (sym s) m);
  }

  -- The rest of a run, after a step that may have failed.
  pub go_on-Advance :
      {A B : Type 0} (w : Books) (f : A → Bookkeeping B) (x : Result A × Books)
      → Advance w x.1
      → ((a : A) → Advance x.1 (f a x.1).1)
      → Advance w (go_on f x).1
  go_on-Advance w f (ok a, w') p q = Advance-trans p (q a)
  go_on-Advance w f (err e, w') p q = p
