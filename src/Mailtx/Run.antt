-- ===== src/Mailtx/Run.antt =====
-- One run of mailtx (`run` of mailtx/src/main.rs): it posts the expired legs, then reads one mail and
-- posts, stores or completes its transaction.
pub mod Progression
pub mod Flushing
pub mod Transfers
pub mod Booking
pub mod Recording
use mailmux.Base.{
  Bool, List, Option, Result, String, [], bail, codes, err, false, if◌then◌else◌, lift, nat_eq,
  none, not, ok, option_eq, some, string_eq, suc, succeed, true, ℕ, ◌++◌, ◌==◌, ◌∷◌,
}
use mailmux.Base.Effects.{◌>>=◌, ◌>>◌}
use mailmux.Mailtx.{
  CanonicalTransaction, MailtxConfig, TransactionData, TransactionKind, deposit_kind, transfer_kind,
  withdrawal_kind,
}
use mailmux.Mailtx.Books.{
  Bookkeeping, Outside, attempt, count_request, measure, post_transaction, set_result, statement,
}
use mailmux.Mailtx.Canonical.{
  Input, InputEmail, canonical_from_llm, external_id_of, or_default, trimmed,
}
use mailmux.Mailtx.Matcher.{MatchedAssetAccount, resolve_asset_account}
use mailmux.Mailtx.Sender.{sender_allowed}
use mailmux.Mailtx.Store.{
  InsertLeg, PendingTransfer, delete_leg, drain_expired, find_match, insert_leg,
}
use mailmux.Mailtx.Transfer.{
  Leg, RuleMatch, deposit, detect_transfer_rule, leg_from_tx_type, opposite, withdrawal,
}

abbrev pub opposite_kind : Leg → TransactionKind
opposite_kind withdrawal = withdrawal_kind
opposite_kind deposit = deposit_kind

-- The account that a leg posted alone is booked on.
abbrev pub leg_account : PendingTransfer → Leg → String
leg_account r withdrawal = r.source_firefly_id
leg_account r deposit = r.destination_firefly_id

module _ (env : Outside) (config : MailtxConfig) where
  -- `ExpiredLeg`, as the transaction that is posted for it.
  unfoldable pub fallback : PendingTransfer → CanonicalTransaction
  fallback r = record {
    amount = env.of_units r.amount_units;
    kind = opposite_kind r.leg;
    narration = r.narration;
    occurred_at = r.occurred_at;
    asset_account_id = leg_account r r.leg;
    transfer_destination_account_id = none;
    tags = r.tags ++ ("unmatched-transfer" ∷ []);
    category_name = r.category;
    external_id = r.external_id;
  }

  abbrev pub delete_row : ℕ → Bookkeeping (Unit {0})
  delete_row id = statement env config (λ now s. (tt, delete_leg id s))

  abbrev pub flushed : PendingTransfer → Result (Option String) → Bookkeeping (Unit {0})
  flushed r (ok id) = do
    delete_row r.id
    count_request "post_transaction" "success"
    measure (λ m. record m { transfers_expired = suc m.transfers_expired })
  flushed r (err e) = count_request "post_transaction" "error"

  unfoldable pub flush_leg : PendingTransfer → Bookkeeping (Unit {0})
  flush_leg r = do receipt ← attempt (post_transaction env config (fallback r)); flushed r receipt

  unfoldable pub flush_legs : List PendingTransfer → Bookkeeping (Unit {0})
  flush_legs [] = succeed tt
  flush_legs (r ∷ rs) = do flush_leg r; flush_legs rs

  -- Without `state_db` there is no store to flush.
  abbrev pub flush_if : Option String → Bookkeeping (Unit {0})
  flush_if none = succeed tt
  flush_if (some path) = do
    expired ← statement env config (λ now s. (drain_expired now s, s))
    flush_legs expired

  -- The counterpart is there: one transfer stands for both.
  unfoldable pub transfer_of : CanonicalTransaction → RuleMatch → CanonicalTransaction
  transfer_of tx rule = record tx {
    kind = transfer_kind;
    asset_account_id = rule.source_firefly_id;
    transfer_destination_account_id = some rule.destination_firefly_id;
  }

  abbrev pub coalesced : ℕ → Result (Option String) → Bookkeeping (Unit {0})
  coalesced id (ok receipt) = do
    delete_row id
    count_request "post_transaction" "success"
    measure (λ m. record m {
      transfers_coalesced = suc m.transfers_coalesced;
      result = some "transfer_coalesced";
      firefly_transaction_id = receipt;
    })
  coalesced id (err e) = do count_request "post_transaction" "error"; bail e

  unfoldable pub coalesce : CanonicalTransaction → RuleMatch → ℕ → Bookkeeping (Unit {0})
  coalesce tx rule id = do
    receipt ← attempt (post_transaction env config (transfer_of tx rule))
    coalesced id receipt

  unfoldable pub leg_of : CanonicalTransaction → RuleMatch → InsertLeg
  leg_of tx rule = record {
    rule_id = rule.rule_id;
    leg = rule.leg;
    amount_units = env.units tx.amount;
    narration = tx.narration;
    category = tx.category_name;
    source_firefly_id = rule.source_firefly_id;
    destination_firefly_id = rule.destination_firefly_id;
    occurred_at = tx.occurred_at;
    tags = tx.tags;
    external_id = tx.external_id;
  }

  abbrev pub stored : Bool → Bookkeeping (Unit {0})
  stored true =
      measure (λ m. record m {
        transfers_stored = suc m.transfers_stored;
        result = some "transfer_stored";
      })
  stored false = set_result "transfer_already_stored"

  unfoldable pub store_leg : CanonicalTransaction → RuleMatch → Bookkeeping (Unit {0})
  store_leg tx rule = do
    inserted ← statement env config (λ now s. insert_leg now (leg_of tx rule) s)
    stored inserted

  abbrev pub match_leg : CanonicalTransaction → RuleMatch → Option ℕ → Bookkeeping (Unit {0})
  match_leg tx rule (some id) = coalesce tx rule id
  match_leg tx rule none = store_leg tx rule

  abbrev pub transfer_with :
      CanonicalTransaction → RuleMatch → Option String → Bookkeeping (Unit {0})
  transfer_with tx rule none = bail "transfer rule matched but state_db is not configured"
  transfer_with tx rule (some path) = do
    counterpart ←
        statement env config
          (λ now s. (find_match rule.rule_id (opposite rule.leg) (env.units tx.amount) now s, s))
    match_leg tx rule counterpart

  abbrev pub posted_regular : Result (Option String) → Bookkeeping (Unit {0})
  posted_regular (ok receipt) = do
    count_request "post_transaction" "success"
    measure (λ m. record m { result = some "posted"; firefly_transaction_id = receipt })
  posted_regular (err e) = do count_request "post_transaction" "error"; bail e

  abbrev pub book_as : CanonicalTransaction → Option RuleMatch → Bookkeeping (Unit {0})
  book_as tx none = do receipt ← attempt (post_transaction env config tx); posted_regular receipt
  book_as tx (some rule) = transfer_with tx rule config.state_db

  abbrev pub rule_for : CanonicalTransaction → String → Option Leg → Option RuleMatch
  rule_for tx account none = none
  rule_for tx account (some leg) = detect_transfer_rule config account leg tx.narration

  -- From the transfer detection on.
  unfoldable pub book : CanonicalTransaction → String → Option String → Bookkeeping (Unit {0})
  book tx account tx_type =
      book_as tx (rule_for tx account (leg_from_tx_type (or_default "" tx_type)))

  abbrev pub book_canonical :
      String → Option String → Result CanonicalTransaction → Bookkeeping (Unit {0})
  book_canonical account tx_type (ok canonical) = book canonical account tx_type
  book_canonical account tx_type (err m) = bail m

  abbrev pub utc : Bookkeeping ℕ
  utc w = (ok (env.clock w.tick), w)

  abbrev pub book_resolved :
      InputEmail → String → TransactionData → Result MatchedAssetAccount → Bookkeeping (Unit {0})
  book_resolved e external tx (err m) = do
    measure (λ m'. record m' { account_match_method = some "failed" })
    bail m
  book_resolved e external tx (ok r) = do
    measure (λ m'. record m' { account_match_method = some r.method })
    now ← utc
    book_canonical r.account_id tx.transaction_type (
        canonical_from_llm env.dates now tx r.firefly_account_id config.tag e.date
          (trimmed tx.category) (some external))

  abbrev pub book_extracted :
      InputEmail → String → String → Result TransactionData → Bookkeeping (Unit {0})
  book_extracted e external body (err m) = do
    measure (λ m'. record m' { llm_result = some "error" })
    bail m
  book_extracted e external body (ok tx) = do
    measure (λ m'. record m' { llm_result = some "success" })
    (if tx.status == "not_found"
        then set_result "no_transaction"
        else if not (tx.status == "found")
        then bail "LLM returned an invalid transaction status"
        else book_resolved e external tx
            (resolve_asset_account env.captures config (or_default "" e.subject) body))

  abbrev pub called : {A : Type 0} → (ℕ → Result A) → Bookkeeping (Result A)
  called f w = (ok (f w.tick), record w { tick = suc w.tick })

  abbrev pub book_categorised :
      InputEmail → String → String → Result (List String) → Bookkeeping (Unit {0})
  book_categorised e external body (err m) = do count_request "get_categories" "error"; bail m
  book_categorised e external body (ok categories) = do
    count_request "get_categories" "success"
    tx ← called (λ n. env.extract n (or_default "" e.subject) body categories)
    book_extracted e external body tx

  abbrev pub book_email : InputEmail → String → Bookkeeping (Unit {0})
  book_email e external =
      if not (sender_allowed env.lowercase config.allowed_senders (codes (or_default "" e.sender)))
      then set_result "skipped_sender"
      else (do
        body ← lift (env.extract_body e.raw_message_path)
        client ← lift env.llm_client
        categories ← called env.categories
        book_categorised e external body categories)

  abbrev pub book_input : Input → Option InputEmail → Bookkeeping (Unit {0})
  book_input input none = set_result "skipped_sender"
  book_input input (some e) = do external ← lift (external_id_of input); book_email e external

  -- From the opened store on; what stands on stdin is `input`, parsed.
  unfoldable pub run_mailtx : Result Input → Bookkeeping (Unit {0})
  run_mailtx parsed = do flush_if config.state_db; input ← lift parsed; book_input input input.email
