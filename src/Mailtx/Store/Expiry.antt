-- ===== src/Mailtx/Store/Expiry.antt =====
-- Which pending legs are flushed and which are matched (`drain_expired` and `find_match` of
-- mailtx/src/transfer.rs).
use mailmux.Base.{
  ==_refl, All-Has, Bool, Bool-cases, Has, Has-of-select, Has-select, Has-sort_by, List, Option,
  SortedBy, String, [], arith, false, inl, inr, leb→le, nat_eq, none, option_eq, refl, select, some,
  sort_by, sort_by-Has, sort_by-SortedBy, string_eq, subst, sym, true, ℕ, ◌∙◌, ◌∷◌, ◌≡◌, ◌≤◌, ◌⊎◌,
}
use mailmux.Mailtx.Store.{
  PendingStore, PendingTransfer, drain_expired, find_match, first_id, is_counterpart, is_expired,
  older, same_leg,
}
use mailmux.Mailtx.Transfer.{Leg, deposit, withdrawal}

older_total : (a b : PendingTransfer) → older a b ≡ false → older b a ≡ true
older_total a b h = ground arith

older_trans : (a b c : PendingTransfer) → older a b ≡ true → older b c ≡ true → older a c ≡ true
older_trans a b c h k = ground arith

pub drain_expired-Has :
    (now : ℕ) (s : PendingStore) (r : PendingTransfer)
    → Has r (drain_expired now s)
    → Has r s.rows × (is_expired now s r ≡ true)
unfolding drain_expired
drain_expired-Has now s r m =
    Has-of-select (is_expired now s) r s.rows
      (sort_by-Has older r (select (is_expired now s) s.rows) m)

pub Has-drain_expired :
    (now : ℕ) (s : PendingStore) (r : PendingTransfer)
    → Has r s.rows
    → is_expired now s r ≡ true
    → Has r (drain_expired now s)
unfolding drain_expired
Has-drain_expired now s r m h =
    Has-sort_by older r (select (is_expired now s) s.rows)
      (Has-select (is_expired now s) r s.rows m h)

counterpart-not_expired :
    (rule_id : String) (leg : Leg) (amount now : ℕ) (s : PendingStore) (r : PendingTransfer)
    → is_counterpart rule_id leg amount now s r ≡ true
    → is_expired now s r ≡ false
unfolding is_expired
counterpart-not_expired rule_id leg amount now s r h = ground arith

pub counterpart_parts :
    (rule_id : String) (leg : Leg) (amount now : ℕ) (s : PendingStore) (r : PendingTransfer)
    → is_counterpart rule_id leg amount now s r ≡ true
    → (r.rule_id ≡ rule_id) × ((r.amount_units ≡ amount) × (same_leg r.leg leg ≡ true))
counterpart_parts rule_id leg amount now s r h = (ground arith, (ground arith, ground arith))

-- The leg that `find_match` answers with: a counterpart, and no other one is older.
pub record IsOldest (rule_id : String) (leg : Leg) (amount now : ℕ) (s : PendingStore) (id : ℕ)
    : Type 0 where
  pub row : PendingTransfer
  pub there : Has row s.rows
  pub named : row.id ≡ id
  pub counterpart : is_counterpart rule_id leg amount now s row ≡ true
  pub oldest :
      (q : PendingTransfer)
      → Has q s.rows
      → is_counterpart rule_id leg amount now s q ≡ true
      → row.inserted_at ≤ q.inserted_at

abbrev pub Answers : String → Leg → ℕ → ℕ → PendingStore → Option ℕ → Type 0
Answers rule_id leg amount now s none =
    (q : PendingTransfer) → Has q s.rows → is_counterpart rule_id leg amount now s q ≡ false
Answers rule_id leg amount now s (some id) = IsOldest rule_id leg amount now s id

-- `find_match` answers with the oldest counterpart leg of that rule and amount in the window, and with
-- nothing only if there is none.
pub find_match-Answers :
    (rule_id : String) (leg : Leg) (amount now : ℕ) (s : PendingStore)
    → Answers rule_id leg amount now s (find_match rule_id leg amount now s)
unfolding find_match
find_match-Answers rule_id leg amount now s =
    go (sort_by older (select test s.rows))
      (sort_by-SortedBy older older_total older_trans (select test s.rows))
      (λ r m. Has-of-select test r s.rows (sort_by-Has older r (select test s.rows) m))
      (λ r m h. Has-sort_by older r (select test s.rows) (Has-select test r s.rows m h))
  where
    test : PendingTransfer → Bool
    test = is_counterpart rule_id leg amount now s

    absent : (q : PendingTransfer) (b : Bool) → test q ≡ b → (test q ≡ true → ⊥) → test q ≡ false
    absent q true e f = absurd (f e)
    absent q false e f = e

    go :
        (rs : List PendingTransfer)
        → SortedBy older rs
        → ((r : PendingTransfer) → Has r rs → Has r s.rows × (test r ≡ true))
        → ((r : PendingTransfer) → Has r s.rows → test r ≡ true → Has r rs)
        → Answers rule_id leg amount now s (first_id rs)
    go [] o f g = λ q m. absent q (test q) refl (λ h. g q m h)
    go (r ∷ rs) (o, t) f g = record {
      row = r;
      there = (f r (inl refl)).0;
      named = refl;
      counterpart = (f r (inl refl)).1;
      oldest = λ q m h. first q (g q m h);
    }
      where
        first : (q : PendingTransfer) → Has q (r ∷ rs) → r.inserted_at ≤ q.inserted_at
        first q (inl e) =
            subst (λ (x : PendingTransfer). r.inserted_at ≤ x.inserted_at) (sym e) (omega arith)
        first q (inr m) =
            leb→le r.inserted_at q.inserted_at (All-Has (λ x. older r x ≡ true) q rs o m)

same_leg_refl : (leg : Leg) → same_leg leg leg ≡ true
same_leg_refl withdrawal = refl
same_leg_refl deposit = refl

own_counterpart :
    (now : ℕ) (s : PendingStore) (r : PendingTransfer)
    → is_expired now s r ≡ false
    → is_counterpart r.rule_id r.leg r.amount_units now s r ≡ true
unfolding is_expired
own_counterpart now s r h =
    ground (arith, ==_refl r.rule_id, ==_refl r.amount_units, same_leg_refl r.leg)

-- At one time every pending leg is either drained or open to a match, never both.
pub drained_or_open :
    (now : ℕ) (s : PendingStore) (r : PendingTransfer)
    → Has r s.rows
    → (Has r (drain_expired now s) ⊎ (is_counterpart r.rule_id r.leg r.amount_units now s r ≡ true))
      × ((rule_id : String) (leg : Leg) (amount : ℕ)
          → Has r (drain_expired now s)
          → is_counterpart rule_id leg amount now s r ≡ false)
drained_or_open now s r m = (
  elim (Bool-cases (is_expired now s r)) [
    | inl h ↦ inl (Has-drain_expired now s r m h)
    | inr h ↦ inr (own_counterpart now s r h)
  ],
  λ rule_id leg amount d. elim (Bool-cases (is_counterpart rule_id leg amount now s r)) [
    | inl c ↦ absurd (
        cc (
          sym (drain_expired-Has now s r d).1
          ∙ counterpart-not_expired rule_id leg amount now s r c))
    | inr c ↦ c
  ],
)
