-- ===== src/Mailtx/Run/Recording.antt =====
-- The transaction of a run's mail (`run` of mailtx/src/main.rs): a run that ends well has recorded it.
use mailmux.Base.{
  Bool, Has, Has-snoc, Option, Result, String, [], any, err, false, go_on, inl, inr, none, ok, some,
  suc, true, ℕ, ◌++◌, ◌∷◌, ◌≡◌, ◌⊎◌,
}
use mailmux.Base.Effects.{◌>>◌}
use mailmux.Mailtx.{CanonicalTransaction, MailtxConfig}
use mailmux.Mailtx.Books.{
  Books, Outside, acknowledge, attempt, caught, count_request, measure, post_transaction,
  run_statement, statement,
}
use mailmux.Mailtx.Canonical.{or_default}
use mailmux.Mailtx.Run.{
  book, book_as, coalesce, coalesced, leg_of, match_leg, posted_regular, rule_for, store_leg,
  stored, transfer_of, transfer_with,
}
use mailmux.Mailtx.Store.{InsertLeg, PendingStore, delete_leg, find_match, has_external, insert_leg}
use mailmux.Mailtx.Store.Keys.{insert_leg-any}
use mailmux.Mailtx.Transfer.{RuleMatch, leg_from_tx_type, opposite}

module _ (env : Outside) (config : MailtxConfig) (tx : CanonicalTransaction) where
  -- Posted as it is, posted as half of a transfer, or pending under its external id.
  abbrev pub Recorded : Books → Type 0
  Recorded w =
      Has tx w.posted
      ⊎ (((rule : RuleMatch) × Has (transfer_of env config tx rule) w.posted)
          ⊎ (any (has_external tx.external_id) w.store.rows ≡ true))

  abbrev pub RecordsIfOk : Result (Unit {0}) × Books → Type 0
  RecordsIfOk (ok u, w) = Recorded w
  RecordsIfOk (err e, w) = Unit

  coalesce-Records :
      (rule : RuleMatch) (id : ℕ) (w : Books) → RecordsIfOk (coalesce env config tx rule id w)
  unfolding coalesce post_transaction statement
  coalesce-Records rule id w = go (env.post w.tick transfer)
    where
      transfer : CanonicalTransaction
      transfer = transfer_of env config tx rule

      acked : Books
      acked = record w { posted = w.posted ++ (transfer ∷ []); tick = suc w.tick }

      delete :
          (b : Bool) (receipt : Option String)
          → RecordsIfOk (
              go_on
                (λ done.
                  count_request "post_transaction" "success"
                  >> measure (λ m. record m {
                    transfers_coalesced = suc m.transfers_coalesced;
                    result = some "transfer_coalesced";
                    firefly_transaction_id = receipt;
                  }))
                (run_statement env config acked b (tt, delete_leg id w.store)))
      delete true receipt = tt
      delete false receipt = inr (inl (rule, Has-snoc transfer w.posted))

      go :
          (answer : Result (Option String))
          → RecordsIfOk
              (go_on (coalesced env config id) (caught (acknowledge env config transfer w answer)))
      go (err e) = tt
      go (ok receipt) = delete (env.sql_fails (suc w.tick)) receipt

  store_leg-Records :
      (rule : RuleMatch) (external : String) (w : Books)
      → tx.external_id ≡ some external
      → RecordsIfOk (store_leg env config tx rule w)
  unfolding store_leg statement leg_of
  store_leg-Records rule external w e = go (env.sql_fails w.tick)
    where
      args : InsertLeg
      args = leg_of env config tx rule

      inserted : Bool × PendingStore
      inserted = insert_leg (env.clock w.tick) args w.store

      noted :
          (b : Bool)
          → RecordsIfOk (stored env config b (record w { store = inserted.1; tick = suc w.tick }))
      noted true = inr (inr (insert_leg-any (env.clock w.tick) args w.store external e))
      noted false = inr (inr (insert_leg-any (env.clock w.tick) args w.store external e))

      go :
          (b : Bool)
          → RecordsIfOk (go_on (stored env config) (run_statement env config w b inserted))
      go true = tt
      go false = noted inserted.0

  transfer_with-Records :
      (rule : RuleMatch) (path : Option String) (external : String) (w : Books)
      → tx.external_id ≡ some external
      → RecordsIfOk (transfer_with env config tx rule path w)
  unfolding statement
  transfer_with-Records rule none external w e = tt
  transfer_with-Records rule (some path) external w e =
      go (env.sql_fails w.tick) (
        find_match rule.rule_id (opposite rule.leg) (env.units tx.amount) (env.clock w.tick)
          w.store)
    where
      go :
          (b : Bool) (o : Option ℕ)
          → RecordsIfOk
              (go_on (match_leg env config tx rule) (run_statement env config w b (o, w.store)))
      go true o = tt
      go false none = store_leg-Records rule external (record w { tick = suc w.tick }) e
      go false (some id) = coalesce-Records rule id (record w { tick = suc w.tick })

  regular-Records :
      (w : Books)
      → RecordsIfOk (go_on (posted_regular env config) (attempt (post_transaction env config tx) w))
  unfolding post_transaction
  regular-Records w = go (env.post w.tick tx)
    where
      go :
          (answer : Result (Option String))
          → RecordsIfOk
              (go_on (posted_regular env config) (caught (acknowledge env config tx w answer)))
      go (err e) = tt
      go (ok receipt) = inl (Has-snoc tx w.posted)

  -- If the booking of a transaction with an external id ends without an error, the transaction was
  -- posted, or a transfer was posted for it, or a leg with its external id is pending.
  pub book-Records :
      (account : String) (tx_type : Option String) (external : String) (w : Books)
      → tx.external_id ≡ some external
      → RecordsIfOk (book env config tx account tx_type w)
  unfolding book
  book-Records account tx_type external w e =
      go (rule_for env config tx account (leg_from_tx_type (or_default "" tx_type)))
    where
      go : (o : Option RuleMatch) → RecordsIfOk (book_as env config tx o w)
      go none = regular-Records w
      go (some rule) = transfer_with-Records rule config.state_db external w e
