-- ===== src/Backfill/Chunks.antt =====
-- The chunks of a page (`page.chunks(concurrency)` in mailmux/src/backfill.rs).
use mailmux.Backfill.{chunks, chunks_of}
use mailmux.Base.{
  List, [], ap, arith, drop, length, length-drop, refl, suc, take, take-append-drop, zero, ℕ, ◌++◌,
  ◌∙◌, ◌∷◌, ◌≡◌, ◌≤◌,
}

abbrev pub joined {ℓ} : {A : Type ℓ} → List (List A) → List A
joined [] = []
joined (c ∷ cs) = c ++ joined cs

joined-chunks_of {ℓ} :
    {A : Type ℓ} (fuel n : ℕ) (xs : List A)
    → 1 ≤ n
    → length xs ≤ fuel
    → joined (chunks_of fuel n xs) ≡ xs
joined-chunks_of zero n [] l h = refl
joined-chunks_of zero n (x ∷ xs) l h = absurd (omega (arith, h))
joined-chunks_of (suc fuel) n [] l h = refl
joined-chunks_of (suc fuel) n (x ∷ xs) l h =
    ap (◌++◌ (take n (x ∷ xs)))
      (joined-chunks_of fuel n (drop n (x ∷ xs)) l (omega (arith, length-drop n (x ∷ xs))))
    ∙ take-append-drop n (x ∷ xs)

-- The chunks of a list, one after the other, are the list.
pub joined-chunks {ℓ} : {A : Type ℓ} (n : ℕ) (xs : List A) → 1 ≤ n → joined (chunks n xs) ≡ xs
unfolding chunks
joined-chunks n xs l = joined-chunks_of (length xs) n xs l (omega arith)
