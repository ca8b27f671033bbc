-- ===== src/Base/Members.antt =====
-- Membership of a list, with the place where the entry stands.
use mathlib.Core.Path.{◌≡◌, refl, ap, sym, subst, ◌∙◌}
use mathlib.Core.Bool.{Bool, true, false}
use mathlib.Core.List.{List, [], ◌∷◌, ◌++◌}
use mathlib.Core.Logic.{◌⊎◌, inl, inr}
use native.Mathlib.Omega.{arith}
use mailmux.Base.Equality.{if◌then◌else◌}
use mailmux.Base.Lists.{All, any, select}
use mailmux.Base.Sorting.{insert_by, sort_by}

module _ {A : Type 0} where
  abbrev pub Has : A → List A → Type 0
  Has a [] = ⊥
  Has a (x ∷ xs) = (a ≡ x) ⊎ Has a xs

  pub Has-append_left : (a : A) (xs ys : List A) → Has a xs → Has a (xs ++ ys)
  Has-append_left a [] ys h = absurd h
  Has-append_left a (x ∷ xs) ys (inl e) = inl e
  Has-append_left a (x ∷ xs) ys (inr h) = inr (Has-append_left a xs ys h)

  pub Has-append_right : (a : A) (xs ys : List A) → Has a ys → Has a (xs ++ ys)
  Has-append_right a [] ys h = h
  Has-append_right a (x ∷ xs) ys h = inr (Has-append_right a xs ys h)

  pub Has-append : (a : A) (xs ys : List A) → Has a (xs ++ ys) → Has a xs ⊎ Has a ys
  Has-append a [] ys h = inr h
  Has-append a (x ∷ xs) ys (inl e) = inl (inl e)
  Has-append a (x ∷ xs) ys (inr h) = elim (Has-append a xs ys h) [
    | inl l ↦ inl (inr l)
    | inr r ↦ inr r
  ]

  pub Has-snoc : (a : A) (xs : List A) → Has a (xs ++ (a ∷ []))
  Has-snoc a xs = Has-append_right a xs (a ∷ []) (inl refl)

  pub All-Has {κ} : (P : A → Type κ) (a : A) (xs : List A) → All P xs → Has a xs → P a
  All-Has P a [] h m = absurd m
  All-Has P a (x ∷ xs) (h, t) (inl e) = subst P (sym e) h
  All-Has P a (x ∷ xs) (h, t) (inr m) = All-Has P a xs t m

  pub All-of-Has {κ} : (P : A → Type κ) (xs : List A) → ((a : A) → Has a xs → P a) → All P xs
  All-of-Has P [] f = tt
  All-of-Has P (x ∷ xs) f = (f x (inl refl), All-of-Has P xs (λ a m. f a (inr m)))

  pub Has-select :
      (p : A → Bool) (a : A) (xs : List A) → Has a xs → p a ≡ true → Has a (select p xs)
  Has-select p a [] m h = m
  Has-select p a (x ∷ xs) (inl e) h = keep (p x) (sym (ap p e) ∙ h)
    where
      keep : (b : Bool) → b ≡ true → Has a (if b then x ∷ select p xs else select p xs)
      keep true h' = inl e
      keep false h' = absurd (cc h')
  Has-select p a (x ∷ xs) (inr m) h = keep (p x) (Has-select p a xs m h)
    where
      keep : (b : Bool) → Has a (select p xs) → Has a (if b then x ∷ select p xs else select p xs)
      keep true rest = inr rest
      keep false rest = rest

  pub Has-of-select :
      (p : A → Bool) (a : A) (xs : List A) → Has a (select p xs) → Has a xs × (p a ≡ true)
  Has-of-select p a [] m = absurd m
  Has-of-select p a (x ∷ xs) m = go (p x) refl (Has-of-select p a xs) m
    where
      go :
          (b : Bool)
          → p x ≡ b
          → (Has a (select p xs) → Has a xs × (p a ≡ true))
          → Has a (if b then x ∷ select p xs else select p xs)
          → Has a (x ∷ xs) × (p a ≡ true)
      go true h rest (inl e) = (inl e, ap p e ∙ h)
      go true h rest (inr m) = (inr (rest m).0, (rest m).1)
      go false h rest m = (inr (rest m).0, (rest m).1)

  pub any-Has : (p : A → Bool) (a : A) (xs : List A) → Has a xs → p a ≡ true → any p xs ≡ true
  any-Has p a [] m h = absurd m
  any-Has p a (x ∷ xs) (inl e) h = ground (arith, sym (ap p e) ∙ h)
  any-Has p a (x ∷ xs) (inr m) h = ground (arith, any-Has p a xs m h)

  module _ (before : A → A → Bool) where
    insert_by-Has : (a x : A) (xs : List A) → Has a (insert_by before x xs) → (a ≡ x) ⊎ Has a xs
    unfolding insert_by
    insert_by-Has a x [] m = m
    insert_by-Has a x (y ∷ ys) m = go (before x y) (insert_by-Has a x ys) m
      where
        go :
            (b : Bool)
            → (Has a (insert_by before x ys) → (a ≡ x) ⊎ Has a ys)
            → Has a (if b then x ∷ y ∷ ys else y ∷ insert_by before x ys)
            → (a ≡ x) ⊎ Has a (y ∷ ys)
        go true rest m = m
        go false rest (inl e) = inr (inl e)
        go false rest (inr m) = elim (rest m) [ inl e ↦ inl e | inr k ↦ inr (inr k) ]

    Has-insert_by : (a x : A) (xs : List A) → (a ≡ x) ⊎ Has a xs → Has a (insert_by before x xs)
    unfolding insert_by
    Has-insert_by a x [] m = m
    Has-insert_by a x (y ∷ ys) m = go (before x y) (Has-insert_by a x ys) m
      where
        go :
            (b : Bool)
            → ((a ≡ x) ⊎ Has a ys → Has a (insert_by before x ys))
            → (a ≡ x) ⊎ Has a (y ∷ ys)
            → Has a (if b then x ∷ y ∷ ys else y ∷ insert_by before x ys)
        go true rest m = m
        go false rest (inl e) = inr (rest (inl e))
        go false rest (inr (inl e)) = inl e
        go false rest (inr (inr k)) = inr (rest (inr k))

    -- Sorting keeps the entries.
    pub sort_by-Has : (a : A) (xs : List A) → Has a (sort_by before xs) → Has a xs
    unfolding sort_by
    sort_by-Has a [] m = m
    sort_by-Has a (x ∷ xs) m = elim (insert_by-Has a x (sort_by before xs) m) [
      | inl e ↦ inl e
      | inr k ↦ inr (sort_by-Has a xs k)
    ]

    pub Has-sort_by : (a : A) (xs : List A) → Has a xs → Has a (sort_by before xs)
    unfolding sort_by
    Has-sort_by a [] m = m
    Has-sort_by a (x ∷ xs) (inl e) = Has-insert_by a x (sort_by before xs) (inl e)
    Has-sort_by a (x ∷ xs) (inr m) =
        Has-insert_by a x (sort_by before xs) (inr (Has-sort_by a xs m))
