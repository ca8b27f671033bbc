-- ===== src/Base/Lists.antt =====
-- Lists measured by native numbers, and Boolean searches through them. A table of the database is a
-- list of rows: `select` is a WHERE clause, `update_where` an UPDATE, `find?` an indexed lookup.
use Prim.Native.Nat.{ℕ, zero, suc, ◌+◌, ◌-◌, min}
use mathlib.Core.Path.{◌≡◌, refl, ap}
use mathlib.Core.Bool.{Bool, true, false, ◌&&◌, ◌||◌}
use mathlib.Core.Option
use mathlib.Core.Option.{Option, none, some}
use mathlib.Core.List.{List, [], ◌∷◌, ◌++◌}
use native.Mathlib.Omega.{arith}
use mailmux.Base.Equality.{if◌then◌else◌}

module _ {ℓ} {A : Type ℓ} where
  abbrev pub length : List A → ℕ
  length [] = 0
  length (x ∷ xs) = suc (length xs)

  abbrev pub get_elem? : List A → ℕ → Option A
  get_elem? [] i = none
  get_elem? (x ∷ xs) zero = some x
  get_elem? (x ∷ xs) (suc i) = get_elem? xs i

  abbrev pub take : ℕ → List A → List A
  take zero xs = []
  take (suc n) [] = []
  take (suc n) (x ∷ xs) = x ∷ take n xs

  abbrev pub drop : ℕ → List A → List A
  drop zero xs = xs
  drop (suc n) [] = []
  drop (suc n) (x ∷ xs) = drop n xs

  abbrev pub any : (A → Bool) → List A → Bool
  any p [] = false
  any p (x ∷ xs) = p x || any p xs

  abbrev pub all : (A → Bool) → List A → Bool
  all p [] = true
  all p (x ∷ xs) = p x && all p xs

  abbrev pub find? : (A → Bool) → List A → Option A
  find? p [] = none
  find? p (x ∷ xs) = if p x then some x else find? p xs

  abbrev pub select : (A → Bool) → List A → List A
  select p [] = []
  select p (x ∷ xs) = let rest = select p xs in if p x then x ∷ rest else rest

  -- Every row that `p` holds of is replaced.
  abbrev pub update_where : (A → Bool) → (A → A) → List A → List A
  update_where p f [] = []
  update_where p f (x ∷ xs) = (if p x then f x else x) ∷ update_where p f xs

  abbrev pub count_where : (A → Bool) → List A → ℕ
  count_where p [] = 0
  count_where p (x ∷ xs) = let rest = count_where p xs in if p x then suc rest else rest

  -- A predicate by recursion computes to tuples, which the tactics read and build.
  abbrev pub All {κ} : (A → Type κ) → List A → Type κ
  All P [] = Unit
  All P (x ∷ xs) = P x × All P xs

  pub length-append : (xs ys : List A) → length (xs ++ ys) ≡ length xs + length ys
  length-append [] ys = omega arith
  length-append (x ∷ xs) ys = omega (arith, length-append xs ys)

  pub length-take : (n : ℕ) (xs : List A) → length (take n xs) ≡ min n (length xs)
  length-take zero xs = omega arith
  length-take (suc n) [] = omega arith
  length-take (suc n) (x ∷ xs) = omega (arith, length-take n xs)

  pub length-drop : (n : ℕ) (xs : List A) → length (drop n xs) ≡ length xs - n
  length-drop zero xs = omega arith
  length-drop (suc n) [] = omega arith
  length-drop (suc n) (x ∷ xs) = omega (arith, length-drop n xs)

  pub take-append-drop : (n : ℕ) (xs : List A) → take n xs ++ drop n xs ≡ xs
  take-append-drop zero xs = refl
  take-append-drop (suc n) [] = refl
  take-append-drop (suc n) (x ∷ xs) = ap (◌∷◌ x) (take-append-drop n xs)

  pub find?-holds : (p : A → Bool) (xs : List A) (a : A) → find? p xs ≡ some a → p a ≡ true
  find?-holds p [] a h = cc
  find?-holds p (x ∷ xs) a h = ground (arith, find?-holds p xs a)

  pub All-map {κ μ} :
      (P : A → Type κ) (Q : A → Type μ) (xs : List A) → ((a : A) → P a → Q a) → All P xs → All Q xs
  All-map P Q [] f h = tt
  All-map P Q (x ∷ xs) f (h, t) = (f x h, All-map P Q xs f t)

  pub All-append {κ} : (P : A → Type κ) (xs ys : List A) → All P xs → All P ys → All P (xs ++ ys)
  All-append P [] ys h k = k
  All-append P (x ∷ xs) ys (h, t) k = (h, All-append P xs ys t k)

  pub All-find? {κ} :
      (P : A → Type κ) (p : A → Bool) (xs : List A) (a : A) → All P xs → find? p xs ≡ some a → P a
  All-find? P p [] a h e = absurd (cc e)
  All-find? P p (x ∷ xs) a (h, t) e = ground (arith, All-find? P p xs a t)

  pub All-update_where {κ} :
      (P : A → Type κ) (p : A → Bool) (f : A → A) (xs : List A)
      → ((a : A) → p a ≡ true → P a → P (f a))
      → All P xs
      → All P (update_where p f xs)
  All-update_where P p f [] k h = tt
  All-update_where P p f (x ∷ xs) k (h, t) = (head (p x) refl, All-update_where P p f xs k t)
    where
      head : (b : Bool) → p x ≡ b → P (if b then f x else x)
      head true e = k x e h
      head false e = h

  pub All-select {κ} :
      (P : A → Type κ) (p : A → Bool) (xs : List A) → All P xs → All P (select p xs)
  All-select P p [] h = tt
  All-select P p (x ∷ xs) (h, t) = keep (p x) (All-select P p xs t)
    where
      keep : (b : Bool) → All P (select p xs) → All P (if b then x ∷ select p xs else select p xs)
      keep true rest = (h, rest)
      keep false rest = rest

  -- What `p` looks for is not changed by the update.
  pub find?-update_where :
      (p q : A → Bool) (f : A → A) (xs : List A)
      → ((a : A) → p (f a) ≡ p a)
      → find? p (update_where q f xs) ≡ Option.map (λ a. if q a then f a else a) (find? p xs)
  find?-update_where p q f [] k = refl
  find?-update_where p q f (x ∷ xs) k = ground (arith, k x, find?-update_where p q f xs k)

  pub find?-append :
      (p : A → Bool) (xs ys : List A)
      → find? p (xs ++ ys) ≡ elim (find? p xs) [ none ↦ find? p ys | some a ↦ some a ]
  find?-append p [] ys = refl
  find?-append p (x ∷ xs) ys = ground (arith, find?-append p xs ys)

  pub any-append : (p : A → Bool) (xs ys : List A) → any p (xs ++ ys) ≡ (any p xs || any p ys)
  any-append p [] ys = refl
  any-append p (x ∷ xs) ys = ground (arith, any-append p xs ys)

  pub any-update_where :
      (p q : A → Bool) (f : A → A) (xs : List A)
      → ((a : A) → p (f a) ≡ p a)
      → any p (update_where q f xs) ≡ any p xs
  any-update_where p q f [] k = refl
  any-update_where p q f (x ∷ xs) k = ground (arith, k x, any-update_where p q f xs k)

  pub any-false-find? : (p : A → Bool) (xs : List A) → any p xs ≡ false → find? p xs ≡ none
  any-false-find? p [] h = refl
  any-false-find? p (x ∷ xs) h = ground (arith, any-false-find? p xs)

  pub All-zip {κ μ} :
      (P : A → Type κ) (Q : A → Type μ) (xs : List A)
      → All P xs
      → All Q xs
      → All (λ a. P a × Q a) xs
  All-zip P Q [] h k = tt
  All-zip P Q (x ∷ xs) (h, t) (k, u) = ((h, k), All-zip P Q xs t u)

  -- Every row is found by a test that it passes itself.
  pub All-any_self :
      (r : A → A → Bool) (xs : List A)
      → ((a : A) → r a a ≡ true)
      → All (λ a. any (r a) xs ≡ true) xs
  All-any_self r [] k = tt
  All-any_self r (x ∷ xs) k = (
    ground (arith, k x),
    All-map (λ a. any (r a) xs ≡ true) (λ a. any (r a) (x ∷ xs) ≡ true) xs (λ a h. ground arith)
        (All-any_self r xs k),
  )

  pub any-select :
      (p q : A → Bool) (xs : List A)
      → ((a : A) → p a ≡ true → q a ≡ true)
      → any p xs ≡ true
      → any p (select q xs) ≡ true
  any-select p q [] k h = h
  any-select p q (x ∷ xs) k h = ground (arith, k x, any-select p q xs k)

  pub find?-select :
      (p q : A → Bool) (xs : List A) (a : A)
      → find? p xs ≡ some a
      → q a ≡ true
      → find? p (select q xs) ≡ some a
  find?-select p q [] a h k = h
  find?-select p q (x ∷ xs) a h k = ground (arith, find?-select p q xs a)

  -- The rows that are kept have passed the test.
  pub All-select_passed {κ μ} :
      (P : A → Type κ) (Q : A → Type μ) (q : A → Bool) (xs : List A)
      → ((a : A) → q a ≡ true → P a → Q a)
      → All P xs
      → All Q (select q xs)
  All-select_passed P Q q [] f h = tt
  All-select_passed P Q q (x ∷ xs) f (h, t) = keep (q x) refl (All-select_passed P Q q xs f t)
    where
      keep :
          (b : Bool)
          → q x ≡ b
          → All Q (select q xs)
          → All Q (if b then x ∷ select q xs else select q xs)
      keep true e rest = (f x e h, rest)
      keep false e rest = rest
