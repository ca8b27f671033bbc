-- ===== src/Base/Texts.antt =====
-- Text as Rust's `str` has it: whitespace, ASCII case and substrings, on the code points of a text.
use Prim.Native.Nat.{ℕ, ◌+◌}
use Prim.Native.Char.{code}
use Prim.Native.String.{String}
use mathlib.Core.Bool.{Bool, true, false, ◌&&◌, ◌||◌}
use mathlib.Core.List.{List, [], ◌∷◌, map}
use mathlib.Core.Option.{Option, none, some}
use mailmux.Base.Equality.{if◌then◌else◌, leb, nat_eq, ◌==◌}

abbrev pub codes : String → List ℕ
codes String.[] = []
codes (String.◌∷◌ c s) = code c ∷ codes s

-- `char::is_whitespace`: the property White_Space.
unfoldable pub is_whitespace : ℕ → Bool
is_whitespace c =
    (leb 9 c && leb c 13)
    || (c == 32
        || (c == 0x85
            || (c == 0xa0
                || (c == 0x1680
                    || ((leb 0x2000 c && leb c 0x200a)
                        || (c == 0x2028
                            || (c == 0x2029 || (c == 0x202f || (c == 0x205f || c == 0x3000)))))))))

-- `u8::to_ascii_lowercase`
unfoldable pub to_ascii_lower : ℕ → ℕ
to_ascii_lower c = if leb 65 c && leb c 90 then c + 32 else c

abbrev pub lower_codes : List ℕ → List ℕ
lower_codes cs = map to_ascii_lower cs

abbrev pub begins_with : List ℕ → List ℕ → Bool
begins_with cs [] = true
begins_with [] (d ∷ ds) = false
begins_with (c ∷ cs) (d ∷ ds) = c == d && begins_with cs ds

-- `str::contains`
abbrev pub contains_codes : List ℕ → List ℕ → Bool
contains_codes [] ds = begins_with [] ds
contains_codes (c ∷ cs) ds = begins_with (c ∷ cs) ds || contains_codes cs ds

abbrev pub is_nil : List ℕ → Bool
is_nil [] = true
is_nil (c ∷ cs) = false

abbrev pub trim_start : List ℕ → List ℕ
trim_start [] = []
trim_start (c ∷ cs) = let rest = trim_start cs in if is_whitespace c then rest else c ∷ cs

abbrev pub trim_end : List ℕ → List ℕ
trim_end [] = []
trim_end (c ∷ cs) =
    let rest = trim_end cs in if is_nil rest && is_whitespace c then [] else c ∷ rest

abbrev pub trim_codes : List ℕ → List ℕ
trim_codes cs = trim_end (trim_start cs)

-- The same on a `String`, where the trimmed text is kept as one.
abbrev pub is_empty : String → Bool
is_empty String.[] = true
is_empty (String.◌∷◌ c s) = false

abbrev pub drop_start : String → String
drop_start String.[] = String.[]
drop_start (String.◌∷◌ c s) =
    let rest = drop_start s in if is_whitespace (code c) then rest else String.◌∷◌ c s

abbrev pub drop_end : String → String
drop_end String.[] = String.[]
drop_end (String.◌∷◌ c s) =
    let rest = drop_end s in
    if is_empty rest && is_whitespace (code c) then String.[] else String.◌∷◌ c rest

abbrev pub trim : String → String
trim s = drop_end (drop_start s)

-- The text before and after the first `c`.
abbrev pub in_front : ℕ → Option (List ℕ × List ℕ) → Option (List ℕ × List ℕ)
in_front c none = none
in_front c (some (left, right)) = some (c ∷ left, right)

unfoldable pub split_once : ℕ → List ℕ → Option (List ℕ × List ℕ)
split_once c [] = none
split_once c (x ∷ xs) =
    let rest = split_once c xs in if x == c then some ([], xs) else in_front x rest
