-- ===== src/Base/Tables.antt =====
-- Tables with a key: what a test says of two rows, `same a b`, is said of no two rows.
use mathlib.Core.Path.{◌≡◌, refl, sym, ◌∙◌}
use mathlib.Core.Bool.{Bool, true, false, ◌&&◌}
use mathlib.Core.Option.{none, some}
use mathlib.Core.List.{List, [], ◌∷◌, ◌++◌}
use native.Mathlib.Omega.{arith}
use mailmux.Base.Equality.{if◌then◌else◌}
use mailmux.Base.Lists.{any, find?, select, update_where, count_where, any-update_where, any-append}

module _ {ℓ} {A : Type ℓ} where
  abbrev pub Distinct : (A → A → Bool) → List A → Type 0
  Distinct same [] = Unit
  Distinct same (x ∷ xs) = (any (same x) xs ≡ false) × Distinct same xs

  pub Distinct-update_where :
      (same : A → A → Bool) (q : A → Bool) (f : A → A) (xs : List A)
      → ((a b : A) → same (f a) b ≡ same a b)
      → ((a b : A) → same a (f b) ≡ same a b)
      → Distinct same xs
      → Distinct same (update_where q f xs)
  Distinct-update_where same q f [] l r h = tt
  Distinct-update_where same q f (x ∷ xs) l r (h, t) =
      (head (q x), Distinct-update_where same q f xs l r t)
    where
      rest : (y : A) → any (same y) xs ≡ false → any (same y) (update_where q f xs) ≡ false
      rest y e = any-update_where (same y) q f xs (r y) ∙ e

      any-congr : (ys : List A) → any (same (f x)) ys ≡ any (same x) ys
      any-congr [] = refl
      any-congr (y ∷ ys) = ground (arith, l x y, any-congr ys)

      head : (b : Bool) → any (same (if b then f x else x)) (update_where q f xs) ≡ false
      head true = any-congr (update_where q f xs) ∙ rest x h
      head false = rest x h

  pub any-false-select :
      (p q : A → Bool) (xs : List A) → any p xs ≡ false → any p (select q xs) ≡ false
  any-false-select p q [] h = refl
  any-false-select p q (x ∷ xs) h = ground (arith, any-false-select p q xs)

  pub Distinct-select :
      (same : A → A → Bool) (q : A → Bool) (xs : List A)
      → Distinct same xs
      → Distinct same (select q xs)
  Distinct-select same q [] h = tt
  Distinct-select same q (x ∷ xs) (h, t) =
      keep (q x) (any-false-select (same x) q xs h) (Distinct-select same q xs t)
    where
      keep :
          (b : Bool)
          → any (same x) (select q xs) ≡ false
          → Distinct same (select q xs)
          → Distinct same (if b then x ∷ select q xs else select q xs)
      keep true new rest = (new, rest)
      keep false new rest = rest

  -- A row that agrees with no other may be added at the end.
  pub Distinct-snoc :
      (same : A → A → Bool) (p : A → Bool) (xs : List A) (y : A)
      → ((a : A) → same a y ≡ p a)
      → any p xs ≡ false
      → Distinct same xs
      → Distinct same (xs ++ y ∷ [])
  Distinct-snoc same p [] y e n h = (refl, tt)
  Distinct-snoc same p (x ∷ xs) y e n (h, t) = (
    ground (arith, any-append (same x) xs (y ∷ []), e x),
    Distinct-snoc same p xs y e (ground arith) t,
  )

  -- A key finds one row, so an update by the key changes one row or none.
  pub count_where-key :
      (same : A → A → Bool) (p q : A → Bool) (xs : List A)
      → ((a b : A) → p a ≡ true → same a b ≡ p b)
      → Distinct same xs
      → count_where (λ a. p a && q a) xs
        ≡ elim (find? p xs) [ none ↦ 0 | some a ↦ if q a then 1 else 0 ]
  count_where-key same p q [] k h = refl
  count_where-key same p q (x ∷ xs) k (h, t) = ground (arith, rest, count_where-key same p q xs k t)
    where
      zero_of : (ys : List A) → any p ys ≡ false → count_where (λ a. p a && q a) ys ≡ 0
      zero_of [] e = refl
      zero_of (y ∷ ys) e = ground (arith, zero_of ys)

      any-congr : p x ≡ true → (ys : List A) → any (same x) ys ≡ any p ys
      any-congr e [] = refl
      any-congr e (y ∷ ys) = ground (arith, k x y e, any-congr e ys)

      rest : p x ≡ true → count_where (λ a. p a && q a) xs ≡ 0
      rest e = zero_of xs (sym (any-congr e xs) ∙ h)

  pub any-key :
      (same : A → A → Bool) (p q : A → Bool) (xs : List A)
      → ((a b : A) → p a ≡ true → same a b ≡ p b)
      → Distinct same xs
      → any (λ a. p a && q a) xs ≡ elim (find? p xs) [ none ↦ false | some a ↦ q a ]
  any-key same p q [] k h = refl
  any-key same p q (x ∷ xs) k (h, t) = ground (arith, rest, any-key same p q xs k t)
    where
      none_of : (ys : List A) → any p ys ≡ false → any (λ a. p a && q a) ys ≡ false
      none_of [] e = refl
      none_of (y ∷ ys) e = ground (arith, none_of ys)

      any-congr : p x ≡ true → (ys : List A) → any (same x) ys ≡ any p ys
      any-congr e [] = refl
      any-congr e (y ∷ ys) = ground (arith, k x y e, any-congr e ys)

      rest : p x ≡ true → any (λ a. p a && q a) xs ≡ false
      rest e = none_of xs (sym (any-congr e xs) ∙ h)
