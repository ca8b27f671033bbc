-- ===== src/Imap/Sync/Batches.antt =====
-- The batches of an ascending list of UIDs (`chunks` in `do_incremental_sync` of
-- mailmux/src/imap/sync.rs).
use mailmux.Base.{
  All, All-Has, All-select, Bool, Has, Has-append, Has-append_left, Has-append_right, List,
  SortedBy, [], arith, drop, false, if◌then◌else◌, inl, inr, leb, refl, select, subst, suc, sym,
  take, take-append-drop, true, zero, ℕ, ◌∷◌, ◌≡◌, ◌≤◌, ◌⊎◌,
}
use mailmux.Imap.Sync.{last_of}

pub SortedBy-drop : (n : ℕ) (xs : List ℕ) → SortedBy leb xs → SortedBy leb (drop n xs)
SortedBy-drop zero xs h = h
SortedBy-drop (suc n) [] h = tt
SortedBy-drop (suc n) (x ∷ xs) (h, t) = SortedBy-drop n xs t

All-take : (P : ℕ → Type 0) (n : ℕ) (xs : List ℕ) → All P xs → All P (take n xs)
All-take P zero xs h = tt
All-take P (suc n) [] h = tt
All-take P (suc n) (x ∷ xs) (h, t) = (h, All-take P n xs t)

pub SortedBy-take : (n : ℕ) (xs : List ℕ) → SortedBy leb xs → SortedBy leb (take n xs)
SortedBy-take zero xs h = tt
SortedBy-take (suc n) [] h = tt
SortedBy-take (suc n) (x ∷ xs) (h, t) =
    (All-take (λ y. leb x y ≡ true) n xs h, SortedBy-take n xs t)

pub Has-take_or_drop : (n u : ℕ) (xs : List ℕ) → Has u xs → Has u (take n xs) ⊎ Has u (drop n xs)
Has-take_or_drop n u xs h =
    Has-append u (take n xs) (drop n xs) (subst (Has u) (sym (take-append-drop n xs)) h)

pub Has-of-take : (n u : ℕ) (xs : List ℕ) → Has u (take n xs) ⊎ Has u (drop n xs) → Has u xs
Has-of-take n u xs (inl h) =
    subst (Has u) (take-append-drop n xs) (Has-append_left u (take n xs) (drop n xs) h)
Has-of-take n u xs (inr h) =
    subst (Has u) (take-append-drop n xs) (Has-append_right u (take n xs) (drop n xs) h)

pub least_first : (x u : ℕ) (xs : List ℕ) → SortedBy leb (x ∷ xs) → Has u (x ∷ xs) → x ≤ u
least_first x u xs (h, t) (inl e) = omega arith
least_first x u xs (h, t) (inr m) =
    let l : leb x u ≡ true = All-Has (λ y. leb x y ≡ true) u xs h m in ground arith

pub greatest_last :
    (x u : ℕ) (xs : List ℕ) → SortedBy leb (x ∷ xs) → Has u (x ∷ xs) → u ≤ last_of x xs
greatest_last x u [] h (inl e) = omega arith
greatest_last x u [] h (inr m) = absurd m
greatest_last x u (y ∷ ys) ((l, h), t) (inl e) =
    let p : y ≤ last_of y ys = greatest_last y y ys t (inl refl) in ground arith
greatest_last x u (y ∷ ys) ((l, h), t) (inr m) = greatest_last y u ys t m

pub SortedBy-select : (p : ℕ → Bool) (xs : List ℕ) → SortedBy leb xs → SortedBy leb (select p xs)
SortedBy-select p [] h = tt
SortedBy-select p (x ∷ xs) (h, t) = go (p x) (SortedBy-select p xs t)
  where
    go :
        (b : Bool)
        → SortedBy leb (select p xs)
        → SortedBy leb (if b then x ∷ select p xs else select p xs)
    go true rest = (All-select (λ y. leb x y ≡ true) p xs h, rest)
    go false rest = rest
