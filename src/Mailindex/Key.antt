-- ===== src/Mailindex/Key.antt =====
-- The key of a document in the search index (`document_key` and `decode_key` of
-- mailindex/src/index/mod.rs). A text is the list of its bytes in UTF-8.
use native.Mathlib.Nat.{mod-lt}
use mailmux.Base.{
  ==_ne, All, Bool, List, Option, [], ap, arith, drop, false, if◌then◌else◌, is_nil, leb, length,
  length-append, ltb, nat_eq, none, not, option_eq, refl, some, split_once, string_eq, subst, suc,
  sym, take, true, zero, ℕ, ◌%◌, ◌&&◌, ◌*◌, ◌++◌, ◌+◌, ◌-◌, ◌/◌, ◌<◌, ◌==◌, ◌^◌, ◌||◌, ◌∙◌, ◌∷◌,
  ◌≡◌, ◌≤◌,
}

abbrev pub usize_max : ℕ
usize_max = 2 ^ 64 - 1

-- A number in decimal, on fuel: it has at most as many digits as its value plus one.
unfoldable pub decimal_bytes : ℕ → ℕ → List ℕ
decimal_bytes zero n = []
decimal_bytes (suc fuel) n =
    let rest = decimal_bytes fuel (n / 10) in
    if ltb n 10 then (48 + n) ∷ [] else rest ++ ((48 + n % 10) ∷ [])

-- `format!("{}:{}{}", source.len(), source, id)`
unfoldable pub document_key : List ℕ → List ℕ → List ℕ
document_key source id =
    decimal_bytes (suc (length source)) (length source) ++ (58 ∷ (source ++ id))

abbrev pub is_digit : ℕ → Bool
is_digit c = leb 48 c && leb c 57

-- `str::parse::<usize>`, which refuses a number that does not fit.
unfoldable pub parse_digits : ℕ → List ℕ → Option ℕ
parse_digits value [] = some value
parse_digits value (c ∷ cs) =
    let rest = parse_digits (value * 10 + (c - 48)) cs in
    if is_digit c && leb (value * 10 + (c - 48)) usize_max then rest else none

abbrev pub parse_usize : List ℕ → Option ℕ
parse_usize [] = none
parse_usize (c ∷ cs) =
    if c == 43 && not (is_nil cs) then parse_digits 0 cs else parse_digits 0 (c ∷ cs)

-- The text up to the byte `n` and from it on; `get` gives nothing beyond the end or inside a
-- character, whose later bytes are those from 128 to 191.
abbrev pub starts_character : List ℕ → Bool
starts_character [] = true
starts_character (b ∷ bs) = not (leb 128 b && leb b 191)

unfoldable pub split_at : ℕ → List ℕ → Option (List ℕ × List ℕ)
split_at n bytes =
    if leb n (length bytes) && starts_character (drop n bytes)
    then some (take n bytes, drop n bytes)
    else none

abbrev pub key_parts : Option (List ℕ × List ℕ) → Option (List ℕ × List ℕ)
key_parts none = none
key_parts (some (source, id)) = if is_nil source || is_nil id then none else some (source, id)

abbrev pub key_rest : List ℕ → Option ℕ → Option (List ℕ × List ℕ)
key_rest rest none = none
key_rest rest (some n) = key_parts (split_at n rest)

abbrev pub key_fields : Option (List ℕ × List ℕ) → Option (List ℕ × List ℕ)
key_fields none = none
key_fields (some (n, rest)) = key_rest rest (parse_usize n)

unfoldable pub decode_key : List ℕ → Option (List ℕ × List ℕ)
decode_key key = key_fields (split_once 58 key)

abbrev Digits : List ℕ → Type 0
Digits cs = All (λ c. is_digit c ≡ true) cs

Digits-snoc : (cs : List ℕ) (c : ℕ) → Digits cs → is_digit c ≡ true → Digits (cs ++ (c ∷ []))
Digits-snoc [] c h e = (e, tt)
Digits-snoc (d ∷ cs) c (h, t) e = (h, Digits-snoc cs c t e)

decimal_bytes-Digits : (fuel n : ℕ) → Digits (decimal_bytes fuel n)
unfolding decimal_bytes
decimal_bytes-Digits zero n = tt
decimal_bytes-Digits (suc fuel) n = go (ltb n 10) refl (
    Digits-snoc (decimal_bytes fuel (n / 10)) (48 + n % 10) (decimal_bytes-Digits fuel (n / 10))
      (ground (arith, mod-lt n {m = 10} (omega arith))))
  where
    go :
        (b : Bool)
        → ltb n 10 ≡ b
        → Digits (decimal_bytes fuel (n / 10) ++ ((48 + n % 10) ∷ []))
        → Digits (if b then (48 + n) ∷ [] else decimal_bytes fuel (n / 10) ++ ((48 + n % 10) ∷ []))
    go true e h = (ground arith, tt)
    go false e h = h

is_nil-snoc : (cs : List ℕ) (c : ℕ) → is_nil (cs ++ (c ∷ [])) ≡ false
is_nil-snoc [] c = refl
is_nil-snoc (d ∷ cs) c = refl

decimal_bytes-is_nil : (fuel n : ℕ) → is_nil (decimal_bytes (suc fuel) n) ≡ false
unfolding decimal_bytes
decimal_bytes-is_nil fuel n =
    ground (arith, is_nil-snoc (decimal_bytes fuel (n / 10)) (48 + n % 10))

snoc-append : (xs ys : List ℕ) (y : ℕ) → (xs ++ (y ∷ [])) ++ ys ≡ xs ++ (y ∷ ys)
snoc-append [] ys y = refl
snoc-append (x ∷ xs) ys y = ap (λ zs. x ∷ zs) (snoc-append xs ys y)

parse_digits-∷ :
    (value d : ℕ) (cs : List ℕ)
    → d < 10
    → value * 10 + d ≤ usize_max
    → parse_digits value ((48 + d) ∷ cs) ≡ parse_digits (value * 10 + d) cs
unfolding parse_digits
parse_digits-∷ value d cs l p =
    let q : (48 + d) - 48 ≡ d = omega arith in
    let t : (is_digit (48 + d) && leb (value * 10 + d) usize_max) ≡ true = ground arith in
    rw q (rw t refl)

-- Reading the digits of a number gives the number.
parse_digits-decimal_bytes :
    (fuel n : ℕ) (cs : List ℕ)
    → n < fuel
    → n ≤ usize_max
    → parse_digits 0 (decimal_bytes fuel n ++ cs) ≡ parse_digits n cs
unfolding parse_digits decimal_bytes
parse_digits-decimal_bytes zero n cs l p = absurd (omega arith)
parse_digits-decimal_bytes (suc fuel) n cs l p =
    go (ltb n 10) refl (λ h.
      parse_digits-decimal_bytes fuel (n / 10) ((48 + n % 10) ∷ cs) (omega arith) (omega arith))
  where
    go :
        (b : Bool)
        → ltb n 10 ≡ b
        → (10 ≤ n
            → parse_digits 0 (decimal_bytes fuel (n / 10) ++ ((48 + n % 10) ∷ cs))
              ≡ parse_digits (n / 10) ((48 + n % 10) ∷ cs))
        → parse_digits 0 (
            (if b then (48 + n) ∷ [] else decimal_bytes fuel (n / 10) ++ ((48 + n % 10) ∷ []))
            ++ cs)
          ≡ parse_digits n cs
    go true e h =
        let q : 0 * 10 + n ≡ n = omega arith in
        parse_digits-∷ 0 n cs (ground arith) (omega arith) ∙ ap (λ k. parse_digits k cs) q
    go false e h =
        let q : n / 10 * 10 + n % 10 ≡ n = omega arith in
        ap (parse_digits 0) (snoc-append (decimal_bytes fuel (n / 10)) cs (48 + n % 10))
        ∙ h (ground arith)
        ∙ parse_digits-∷ (n / 10) (n % 10) cs (omega arith) (omega arith)
        ∙ ap (λ k. parse_digits k cs) q

parse_usize-Digits :
    (cs : List ℕ) → is_nil cs ≡ false → Digits cs → parse_usize cs ≡ parse_digits 0 cs
parse_usize-Digits [] e h = absurd (cc e)
parse_usize-Digits (c ∷ cs) e (h, t) =
    rw (==_ne c 43 (λ p. let d : is_digit 43 ≡ true = subst (λ k. is_digit k ≡ true) p h in cc d))
      refl

split_once-Digits :
    (cs rest : List ℕ) → Digits cs → split_once 58 (cs ++ (58 ∷ rest)) ≡ some (cs, rest)
unfolding split_once nat_eq
split_once-Digits [] rest h = refl
split_once-Digits (c ∷ cs) rest (h, t) =
    rw (==_ne c 58 (λ p. let d : is_digit 58 ≡ true = subst (λ k. is_digit k ≡ true) p h in cc d))
      (rw (split_once-Digits cs rest t) refl)

take-append : (xs ys : List ℕ) → take (length xs) (xs ++ ys) ≡ xs
take-append [] ys = refl
take-append (x ∷ xs) ys = ap (λ zs. x ∷ zs) (take-append xs ys)

drop-append : (xs ys : List ℕ) → drop (length xs) (xs ++ ys) ≡ ys
drop-append [] ys = refl
drop-append (x ∷ xs) ys = drop-append xs ys

append-[] : (xs : List ℕ) → xs ++ [] ≡ xs
append-[] [] = refl
append-[] (x ∷ xs) = ap (λ zs. x ∷ zs) (append-[] xs)

split_at-append :
    (xs ys : List ℕ) → starts_character ys ≡ true → split_at (length xs) (xs ++ ys) ≡ some (xs, ys)
unfolding split_at
split_at-append xs ys h =
    let n : leb (length xs) (length (xs ++ ys)) ≡ true = ground (arith, length-append xs ys) in
    rw n (rw (drop-append xs ys) (rw (take-append xs ys) (rw h refl)))

-- Decoding the key of a document gives its source and its id, when neither is empty, the id starts
-- with a whole character and the length of the source fits into a usize.
pub decode_key-document_key :
    (source id : List ℕ)
    → is_nil source ≡ false
    → is_nil id ≡ false
    → starts_character id ≡ true
    → length source ≤ usize_max
    → decode_key (document_key source id) ≡ some (source, id)
unfolding decode_key document_key parse_digits
decode_key-document_key source id s i c l =
    let n : List ℕ = decimal_bytes (suc (length source)) (length source) in
    let digits : Digits n = decimal_bytes-Digits (suc (length source)) (length source) in
    let parsed : parse_usize n ≡ some (length source) =
      parse_usize-Digits n (decimal_bytes-is_nil (length source) (length source)) digits
      ∙ ap (parse_digits 0) (sym (append-[] n))
      ∙ parse_digits-decimal_bytes (suc (length source)) (length source) [] (omega arith) l in
    rw (split_once-Digits n (source ++ id) digits)
      (rw parsed (rw (split_at-append source id c) (rw s (rw i refl))))
