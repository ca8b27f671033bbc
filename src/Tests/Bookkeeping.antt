-- ===== src/Tests/Bookkeeping.antt =====
-- A run of mailtx on a store with one pending withdrawal: its transfer, and the leg that expires.
use mailmux.Base.{
  Has, List, Option, Result, String, [], ap, arith, codes, err, false, if◌then◌else◌, inl, inr,
  insert_by, lower_codes, nat_eq, none, ok, option_eq, refl, some, sort_by, string_eq, subst, sym,
  to_ascii_lower, true, ℕ, ◌<◌, ◌==◌, ◌∙◌, ◌∷◌, ◌≡◌, ◌⊎◌,
}
use mailmux.Mailtx.{
  CanonicalTransaction, FireflyAssetAccountConfig, MailtxConfig, TransferRule, deposit_kind,
}
use mailmux.Mailtx.Books.{Books, Outside, post_transaction, statement}
use mailmux.Mailtx.Canonical.{Input}
use mailmux.Mailtx.Matcher.{Captures, NormalizedAccount, resolve_in}
use mailmux.Mailtx.Matcher.Resolution.{Resolved, resolve_in-Resolved}
use mailmux.Mailtx.Run.{book, coalesce, fallback, flush_leg, flush_legs, run_mailtx, transfer_of}
use mailmux.Mailtx.Run.Booking.{BookedFor, run_mailtx-Advance}
use mailmux.Mailtx.Run.Progression.{Advance}
use mailmux.Mailtx.Run.Recording.{RecordsIfOk, book-Records}
use mailmux.Mailtx.Store.{
  InsertLeg, PendingStore, PendingTransfer, cutoff_unix, delete_leg, drain_expired, find_match,
  insert_leg, is_counterpart, is_expired,
}
use mailmux.Mailtx.Store.Expiry.{Answers, drained_or_open, find_match-Answers}
use mailmux.Mailtx.Store.Keys.{IsKeyed}
use mailmux.Mailtx.Store.Once.{Change, Spares, changed, deletes, insert_leg-changed, inserts}
use mailmux.Mailtx.Transfer.{
  Leg, RuleMatch, deposit, detect_transfer_rule, find_firefly_id, leg_from_tx_type, opposite,
  rule_applies, withdrawal,
}

abbrev card : TransferRule
card = record {
  source_account = "bank";
  destination_account = "card";
  withdrawal_keywords = "bill" ∷ [];
  deposit_keywords = "payment" ∷ [];
}

abbrev asset : String → String → FireflyAssetAccountConfig
asset id firefly = record {
  id = id;
  firefly_account_id = firefly;
  account_suffixes = [];
  debit_card_last4 = [];
  aliases = [];
}

abbrev bank_settings : MailtxConfig
bank_settings = record {
  allowed_senders = codes "alerts@bank.example" ∷ [];
  tag = "mailmux";
  asset_accounts = asset "bank" "7" ∷ asset "card" "9" ∷ [];
  default_asset_account_id = none;
  state_db = some "pending.db";
  transfer_match_window_hours = 1;
  transfer_rules = card ∷ [];
}

abbrev pending_bill : PendingTransfer
pending_bill = record {
  id = 1;
  rule_id = "bank:card";
  leg = withdrawal;
  amount_units = 5000;
  narration = "card bill";
  category = none;
  source_firefly_id = "7";
  destination_firefly_id = "9";
  occurred_at = 10000;
  inserted_at = 10000;
  tags = "mailmux" ∷ [];
  external_id = some "mailmux:event:1";
}

abbrev one_pending : PendingStore
one_pending = record { rows = pending_bill ∷ []; next_row = 2; window_secs = 3600 }

-- The clock stands still and every call but the language model answers.
abbrev outside : ℕ → Outside
outside now = record {
  clock = λ n. now;
  sql_fails = λ n. false;
  post = λ n tx. ok (some "77");
  categories = λ n. ok [];
  extract = λ n subject body categories. err "no model";
  extract_body = λ path. ok "";
  llm_client = ok tt;
  captures = record { cards = λ text. []; accounts = λ text. [] };
  dates = record { rfc3339 = λ s. none; ymd = λ s. none };
  lowercase = lower_codes;
  units = λ a. if a == "50.00" then 5000 else 0;
  of_units = λ n. if n == 5000 then "50.00" else "0.00";
}

abbrev books : Books
books = record {
  store = one_pending;
  posted = [];
  tick = 0;
  metrics = record {
    result = none;
    llm_result = none;
    firefly_requests = [];
    account_match_method = none;
    transfers_stored = 0;
    transfers_coalesced = 0;
    transfers_expired = 0;
    firefly_transaction_id = none;
  };
}

only : (a : PendingTransfer) → Has a one_pending.rows → a ≡ pending_bill
only a (inl e) = e
only a (inr h) = absurd h

one_pending-IsKeyed : IsKeyed one_pending
one_pending-IsKeyed = record {
  unique = λ a b m n e. only a m ∙ sym (only b n);
  below = λ a m. subst (λ (r : PendingTransfer). r.id < 2) (sym (only a m)) (omega arith);
  once = λ a b e m n p q. only a m ∙ sym (only b n);
}

-- The payment of the bill on the card.
abbrev payment : CanonicalTransaction
payment = record {
  amount = "50.00";
  kind = deposit_kind;
  narration = "Payment received";
  occurred_at = 11000;
  asset_account_id = "9";
  transfer_destination_account_id = none;
  tags = "mailmux" ∷ [];
  category_name = none;
  external_id = some "mailmux:event:2";
}

abbrev payment_rule : RuleMatch
payment_rule = record {
  rule_id = "bank:card";
  leg = deposit;
  source_firefly_id = "7";
  destination_firefly_id = "9";
}

abbrev mail : Input
mail = record { event_id = 3; backfill = false; email = none }

run_mailtx-Advance_example :
    Advance
      (outside 20000)
      bank_settings
      (BookedFor (outside 20000) bank_settings (ok mail))
      books
      (run_mailtx (outside 20000) bank_settings (ok mail) books).1
run_mailtx-Advance_example =
    run_mailtx-Advance (outside 20000) bank_settings (ok mail) books one_pending-IsKeyed

book-Records_example :
    RecordsIfOk
      (outside 11000)
      bank_settings
      payment
      (book (outside 11000) bank_settings payment "card" (some "deposit") books)
book-Records_example =
    book-Records (outside 11000) bank_settings payment "card" (some "deposit") "mailmux:event:2"
      books refl

find_match-Answers_example :
    Answers "bank:card" withdrawal 5000 11000 one_pending
      (find_match "bank:card" withdrawal 5000 11000 one_pending)
find_match-Answers_example = find_match-Answers "bank:card" withdrawal 5000 11000 one_pending

drained_or_open_example :
    (Has pending_bill (drain_expired 20000 one_pending)
      ⊎ (is_counterpart "bank:card" withdrawal 5000 20000 one_pending pending_bill ≡ true))
    × ((rule_id : String) (leg : Leg) (amount : ℕ)
        → Has pending_bill (drain_expired 20000 one_pending)
        → is_counterpart rule_id leg amount 20000 one_pending pending_bill ≡ false)
drained_or_open_example = drained_or_open 20000 one_pending pending_bill (inl refl)

abbrev payment_leg : InsertLeg
payment_leg = record {
  rule_id = "bank:card";
  leg = deposit;
  amount_units = 5000;
  narration = "Payment received";
  category = none;
  source_firefly_id = "7";
  destination_firefly_id = "9";
  occurred_at = 11000;
  tags = "mailmux" ∷ [];
  external_id = some "mailmux:event:2";
}

abbrev refund : InsertLeg
refund = record payment_leg { external_id = some "mailmux:event:4" }

-- Another leg is stored and the bill is deleted.
abbrev meanwhile : List Change
meanwhile = inserts 11500 refund ∷ deletes 1 ∷ []

insert_leg-changed_example :
    insert_leg 12000 payment_leg (changed meanwhile (insert_leg 11000 payment_leg one_pending).1)
    ≡ (false, changed meanwhile (insert_leg 11000 payment_leg one_pending).1)
unfolding insert_leg nat_eq string_eq option_eq
insert_leg-changed_example =
    insert_leg-changed 11000 payment_leg one_pending "mailmux:event:2" meanwhile 12000 payment_leg
      refl refl spared
  where
    spared :
        (r : PendingTransfer)
        → Has r (insert_leg 11000 payment_leg one_pending).1.rows
        → r.external_id ≡ some "mailmux:event:2"
        → Spares r.id meanwhile
    spared r (inl bill) e = absurd (
        elsewhere (
          ap (λ (o : Option String). o == some "mailmux:event:1")
            (sym (ap (λ (t : PendingTransfer). t.external_id) bill) ∙ e)))
      where
        elsewhere : true ≡ false → ⊥
        elsewhere h = cc h
    spared r (inr (inl paid)) e =
        ((λ k. absurd (cc (sym (ap (λ (t : PendingTransfer). t.id) paid) ∙ k))), tt)
    spared r (inr (inr nothing)) e = absurd nothing

-- The deposit completes the withdrawal: one transfer is posted and nothing is pending.
booked :
    (let r : Result (Unit {0}) × Books =
        book (outside 11000) bank_settings payment "card" (some "deposit") books in
      (r.1.posted ≡ transfer_of (outside 11000) bank_settings payment payment_rule ∷ [])
      × (r.1.store.rows ≡ []))
unfolding book leg_from_tx_type detect_transfer_rule rule_applies find_firefly_id statement
    find_match cutoff_unix coalesce post_transaction opposite delete_leg transfer_of to_ascii_lower
    sort_by insert_by nat_eq string_eq
booked = (refl, refl)

-- An hour later the run posts the withdrawal alone, and the mail without a record is skipped.
expired :
    (let r : Result (Unit {0}) × Books = run_mailtx (outside 20000) bank_settings (ok mail) books in
      (r.1.posted ≡ fallback (outside 20000) bank_settings pending_bill ∷ [])
      × (r.1.metrics.result ≡ some "skipped_sender"))
unfolding run_mailtx statement drain_expired is_expired cutoff_unix flush_leg flush_legs
    post_transaction delete_leg fallback sort_by insert_by nat_eq string_eq
expired = (refl, refl)

abbrev card_account : NormalizedAccount
card_account = record {
  id = "bank";
  firefly_account_id = "7";
  account_suffixes = [];
  debit_card_last4 = codes "1234" ∷ [];
  aliases = [];
}

abbrev card_captures : Captures
card_captures = record { cards = λ text. "9999" ∷ "1234" ∷ []; accounts = λ text. [] }

resolve_in-Resolved_example :
    Resolved card_captures
      (card_account ∷ [])
      "debit card 1234"
      (some "5")
      (resolve_in card_captures (card_account ∷ []) (some "5") "debit card 1234")
resolve_in-Resolved_example =
    resolve_in-Resolved card_captures (card_account ∷ []) "debit card 1234" (some "5")
