-- ===== src/Base/Sorting.antt =====
-- `ORDER BY` as a stable insertion sort by a test, and what sorting keeps.
use mathlib.Core.Path.{◌≡◌, refl}
use mathlib.Core.Bool.{Bool, true, false}
use mathlib.Core.List.{List, [], ◌∷◌}
use mailmux.Base.Equality.{if◌then◌else◌}
use mailmux.Base.Lists.{All, All-map}

module _ {ℓ} {A : Type ℓ} (before : A → A → Bool) where
  unfoldable pub insert_by : A → List A → List A
  insert_by a [] = a ∷ []
  insert_by a (x ∷ xs) = if before a x then a ∷ x ∷ xs else x ∷ insert_by a xs

  unfoldable pub sort_by : List A → List A
  sort_by [] = []
  sort_by (x ∷ xs) = insert_by x (sort_by xs)

  -- Every entry stands before the later ones.
  abbrev pub SortedBy : List A → Type 0
  SortedBy [] = Unit
  SortedBy (x ∷ xs) = All (λ y. before x y ≡ true) xs × SortedBy xs

  All-insert_by {κ} :
      (P : A → Type κ) (a : A) (xs : List A) → P a → All P xs → All P (insert_by a xs)
  unfolding insert_by
  All-insert_by P a [] h t = (h, tt)
  All-insert_by P a (x ∷ xs) h (g, t) = go (before a x) (All-insert_by P a xs h t)
    where
      go :
          (b : Bool) → All P (insert_by a xs) → All P (if b then a ∷ x ∷ xs else x ∷ insert_by a xs)
      go true rest = (h, (g, t))
      go false rest = (g, rest)

  pub All-sort_by {κ} : (P : A → Type κ) (xs : List A) → All P xs → All P (sort_by xs)
  unfolding sort_by
  All-sort_by P [] h = tt
  All-sort_by P (x ∷ xs) (h, t) = All-insert_by P x (sort_by xs) h (All-sort_by P xs t)

  module _ (total : (a b : A) → before a b ≡ false → before b a ≡ true)
      (trans : (a b c : A) → before a b ≡ true → before b c ≡ true → before a c ≡ true) where
    insert_by-SortedBy : (a : A) (xs : List A) → SortedBy xs → SortedBy (insert_by a xs)
    unfolding insert_by
    insert_by-SortedBy a [] h = (tt, tt)
    insert_by-SortedBy a (x ∷ xs) (h, t) = go (before a x) refl (insert_by-SortedBy a xs t)
      where
        go :
            (b : Bool)
            → before a x ≡ b
            → SortedBy (insert_by a xs)
            → SortedBy (if b then a ∷ x ∷ xs else x ∷ insert_by a xs)
        go true e rest = (
          (
            e,
            All-map (λ y. before x y ≡ true) (λ y. before a y ≡ true) xs (λ y l. trans a x y e l) h,
          ),
          (h, t),
        )
        go false e rest = (All-insert_by (λ y. before x y ≡ true) a xs (total a x e) h, rest)

    pub sort_by-SortedBy : (xs : List A) → SortedBy (sort_by xs)
    unfolding sort_by
    sort_by-SortedBy [] = tt
    sort_by-SortedBy (x ∷ xs) = insert_by-SortedBy x (sort_by xs) (sort_by-SortedBy xs)
