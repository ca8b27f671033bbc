-- ===== src/Mailtx/Store.antt =====
-- mailtx/src/transfer.rs: the table `pending_transfers` of `PendingStore`. The date and the tags of a
-- row, which are written as text and read back, are kept as they are; so is the leg.
pub mod Keys
pub mod Once
pub mod Expiry
use mailmux.Base.{
  Bool, List, Option, String, [], any, false, if◌then◌else◌, leb, ltb, nat_eq, none, not, option_eq,
  select, some, sort_by, string_eq, suc, true, ℕ, ◌&&◌, ◌++◌, ◌-◌, ◌==◌, ◌∷◌,
}
use mailmux.Mailtx.Transfer.{Leg, deposit, withdrawal}

pub record PendingTransfer : Type 0 where
  pub id : ℕ
  pub rule_id : String
  pub leg : Leg
  pub amount_units : ℕ
  pub narration : String
  pub category : Option String
  pub source_firefly_id : String
  pub destination_firefly_id : String
  pub occurred_at : ℕ
  pub inserted_at : ℕ
  pub tags : List String
  pub external_id : Option String

-- The rows, the next value of AUTOINCREMENT, and `window_secs`.
pub record PendingStore : Type 0 where
  pub rows : List PendingTransfer
  pub next_row : ℕ
  pub window_secs : ℕ

pub record InsertLeg : Type 0 where
  pub rule_id : String
  pub leg : Leg
  pub amount_units : ℕ
  pub narration : String
  pub category : Option String
  pub source_firefly_id : String
  pub destination_firefly_id : String
  pub occurred_at : ℕ
  pub tags : List String
  pub external_id : Option String

abbrev pub is_row : ℕ → PendingTransfer → Bool
is_row id r = r.id == id

abbrev pub same_leg : Leg → Leg → Bool
same_leg withdrawal withdrawal = true
same_leg withdrawal deposit = false
same_leg deposit withdrawal = false
same_leg deposit deposit = true

-- Subtraction on ℕ: no row is older than a cutoff before 1970, as in the source.
unfoldable pub cutoff_unix : ℕ → PendingStore → ℕ
cutoff_unix now s = now - s.window_secs

unfoldable pub is_expired : ℕ → PendingStore → PendingTransfer → Bool
is_expired now s r = ltb r.inserted_at (cutoff_unix now s)

-- ORDER BY inserted_at ASC
abbrev pub older : PendingTransfer → PendingTransfer → Bool
older a b = leb a.inserted_at b.inserted_at

unfoldable pub drain_expired : ℕ → PendingStore → List PendingTransfer
drain_expired now s = sort_by older (select (is_expired now s) s.rows)

abbrev pub is_counterpart : String → Leg → ℕ → ℕ → PendingStore → PendingTransfer → Bool
is_counterpart rule_id leg amount_units now s r =
    r.rule_id == rule_id
    && (same_leg r.leg leg
        && (r.amount_units == amount_units && leb (cutoff_unix now s) r.inserted_at))

-- LIMIT 1
abbrev pub first_id : List PendingTransfer → Option ℕ
first_id [] = none
first_id (r ∷ rs) = some r.id

unfoldable pub find_match : String → Leg → ℕ → ℕ → PendingStore → Option ℕ
find_match rule_id leg amount_units now s =
    first_id (sort_by older (select (is_counterpart rule_id leg amount_units now s) s.rows))

unfoldable pub delete_leg : ℕ → PendingStore → PendingStore
delete_leg id s = record s { rows = select (λ r. not (is_row id r)) s.rows }

abbrev pub has_external : Option String → PendingTransfer → Bool
has_external none r = false
has_external (some e) r = r.external_id == some e

abbrev pub new_leg : ℕ → ℕ → InsertLeg → PendingTransfer
new_leg now id args = record {
  id = id;
  rule_id = args.rule_id;
  leg = args.leg;
  amount_units = args.amount_units;
  narration = args.narration;
  category = args.category;
  source_firefly_id = args.source_firefly_id;
  destination_firefly_id = args.destination_firefly_id;
  occurred_at = args.occurred_at;
  inserted_at = now;
  tags = args.tags;
  external_id = args.external_id;
}

-- INSERT OR IGNORE, behind the unique index on `external_id`, where two NULLs do not conflict.
unfoldable pub insert_leg : ℕ → InsertLeg → PendingStore → Bool × PendingStore
insert_leg now args s = if any (has_external args.external_id) s.rows then (false, s) else (
  true,
  record s { rows = s.rows ++ (new_leg now s.next_row args ∷ []); next_row = suc s.next_row },
)
