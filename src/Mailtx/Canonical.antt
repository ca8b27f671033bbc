-- ===== src/Mailtx/Canonical.antt =====
-- mailtx/src/endpoint/mod.rs, `canonical_from_llm`; and `Input::external_id` of mailtx/src/input.rs.
use mailmux.Base.{
  Bool, Option, Result, String, [], err, if◌then◌else◌, is_empty, ltb, nat_eq, none, not, ok,
  option_eq, some, string_eq, suc, trim, zero, ℕ, ◌%◌, ◌/◌, ◌<>◌, ◌==◌, ◌||◌, ◌∷◌,
}
use mailmux.Mailtx.{
  Amount, CanonicalTransaction, TransactionData, TransactionKind, deposit_kind, withdrawal_kind,
}

pub record InputEmail : Type 0 where
  pub id : Option ℕ
  pub subject : Option String
  pub sender : Option String
  pub date : Option ℕ
  pub raw_message_path : String

pub record Input : Type 0 where
  pub event_id : ℕ
  pub backfill : Bool
  pub email : Option InputEmail

abbrev pub digit : ℕ → String
digit d =
    if d == 0
    then "0"
    else if d == 1
    then "1"
    else if d == 2
    then "2"
    else if d == 3
    then "3"
    else if d == 4
    then "4"
    else if d == 5
    then "5"
    else if d == 6
    then "6"
    else if d == 7
    then "7"
    else if d == 8
    then "8"
    else "9"

-- A number in decimal, on fuel: it has at most as many digits as its value plus one.
unfoldable pub decimal_from : ℕ → ℕ → String
decimal_from zero n = ""
decimal_from (suc fuel) n =
    let rest = decimal_from fuel (n / 10) in if ltb n 10 then digit n else rest <> digit (n % 10)

abbrev pub decimal : ℕ → String
decimal n = decimal_from (suc n) n

abbrev pub email_id_of : Option InputEmail → Option ℕ
email_id_of none = none
email_id_of (some e) = e.id

abbrev pub email_identity : Option ℕ → Result String
email_identity none = err "backfill requires a positive email.id for transaction identity"
email_identity (some id) =
    if ltb 0 id
    then ok ("mailmux:email:" <> decimal id)
    else err "backfill requires a positive email.id for transaction identity"

unfoldable pub external_id_of : Input → Result String
external_id_of input =
    if input.backfill || input.event_id == 0
    then email_identity (email_id_of input.email)
    else ok ("mailmux:event:" <> decimal input.event_id)

-- `.map(str::trim).filter(|s| !s.is_empty())`
abbrev pub trimmed : Option String → Option String
trimmed none = none
trimmed (some s) = if is_empty (trim s) then none else some (trim s)

abbrev pub or_default : String → Option String → String
or_default default none = default
or_default default (some s) = s

abbrev pub or_now : ℕ → Option ℕ → ℕ
or_now now none = now
or_now now (some t) = t

-- `DateTime::parse_from_rfc3339`, and `NaiveDate::parse_from_str` as midnight.
pub record Dates : Type 0 where
  pub rfc3339 : String → Option ℕ
  pub ymd : String → Option ℕ

abbrev pub first_date : Option ℕ → Option ℕ → ℕ → ℕ
first_date (some t) date fallback = t
first_date none (some t) fallback = t
first_date none none fallback = fallback

abbrev pub date_or : Dates → ℕ → Option String → ℕ
date_or dates fallback none = fallback
date_or dates fallback (some raw) = first_date (dates.rfc3339 raw) (dates.ymd raw) fallback

unfoldable pub parse_transaction_datetime : Dates → ℕ → Option String → Option ℕ → ℕ
parse_transaction_datetime dates now raw fallback =
    date_or dates (or_now now fallback) (trimmed raw)

abbrev pub kind_of : String → Result TransactionKind
kind_of tx_type =
    if tx_type == "withdrawal"
    then ok withdrawal_kind
    else if tx_type == "deposit"
    then ok deposit_kind
    else err ("unsupported transaction_type from LLM: " <> tx_type)

abbrev pub with_kind :
    (TransactionKind → CanonicalTransaction) → Result TransactionKind → Result CanonicalTransaction
with_kind build (ok kind) = ok (build kind)
with_kind build (err e) = err e

abbrev pub with_type :
    (TransactionKind → CanonicalTransaction) → Option String → Result CanonicalTransaction
with_type build none = err "LLM returned status=found but transaction_type is null"
with_type build (some tx_type) = with_kind build (kind_of tx_type)

abbrev pub with_amount :
    (Amount → TransactionKind → CanonicalTransaction)
    → Option String
    → Option Amount
    → Result CanonicalTransaction
with_amount build tx_type none = err "LLM returned status=found but amount is null"
with_amount build tx_type (some amount) = with_type (build amount) tx_type

unfoldable pub canonical_from_llm :
    Dates
    → ℕ
    → TransactionData
    → String
    → String
    → Option ℕ
    → Option String
    → Option String
    → Result CanonicalTransaction
canonical_from_llm dates now tx account tag email_date category external_id =
    if not (tx.status == "found")
    then err "LLM status must be 'found' before posting"
    else with_amount
        (λ amount kind. record {
          amount = amount;
          kind = kind;
          narration = or_default "Bank transaction" (trimmed tx.narration);
          occurred_at = parse_transaction_datetime dates now tx.transaction_date email_date;
          asset_account_id = account;
          transfer_destination_account_id = none;
          tags = tag ∷ [];
          category_name = category;
          external_id = external_id;
        })
        tx.transaction_type tx.amount
