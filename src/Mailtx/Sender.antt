-- ===== src/Mailtx/Sender.antt =====
-- Who may send (`sender_allowed` and `normalize_sender_address` of mailtx/src/config.rs), on code
-- points. `str::to_lowercase`, which follows the tables of Unicode, is the parameter `lowercase`.
use mailmux.Base.{
  Bool, List, Option, [], any, false, if◌then◌else◌, is_nil, is_whitespace, nat_eq, none, not,
  option_eq, some, split_once, string_eq, trim_codes, true, ℕ, ◌&&◌, ◌==◌, ◌||◌, ◌∷◌,
}

abbrev pub has_char : ℕ → List ℕ → Bool
has_char c cs = any (λ x. x == c) cs

-- `<`, `>`, `"` and whitespace stand in no address.
unfoldable pub is_forbidden : ℕ → Bool
unfolding is_whitespace
is_forbidden c = is_whitespace c || (c == 60 || (c == 62 || c == 34))

abbrev pub has_parts : List ℕ → Option (List ℕ × List ℕ) → Bool
has_parts address none = false
has_parts address (some (user, domain)) =
    not (is_nil user)
    && (not (is_nil domain) && (has_char 46 domain && not (any is_forbidden address)))

unfoldable pub is_valid_mailbox_address : List ℕ → Bool
is_valid_mailbox_address address = has_parts address (split_once 64 address)

module _ (lowercase : List ℕ → List ℕ) where
  abbrev pub checked_address : List ℕ → Option (List ℕ)
  checked_address address = if is_valid_mailbox_address address then some address else none

  -- What stands between `<` and `>` counts, if nothing follows and no `<` stands inside.
  abbrev pub bracketed : Option (List ℕ × List ℕ) → Option (List ℕ)
  bracketed none = none
  bracketed (some (inner, after)) =
      if is_nil (trim_codes after) && not (has_char 60 inner)
      then checked_address (lowercase (trim_codes inner))
      else none

  abbrev pub after_open : List ℕ → Option (List ℕ × List ℕ) → Option (List ℕ)
  after_open sender none = checked_address (lowercase (trim_codes sender))
  after_open sender (some (before, rest)) = bracketed (split_once 62 rest)

  unfoldable pub normalize_sender_address : List ℕ → Option (List ℕ)
  normalize_sender_address text =
      if is_nil (trim_codes text)
      then none
      else after_open (trim_codes text) (split_once 60 (trim_codes text))

  abbrev pub same_codes : List ℕ → List ℕ → Bool
  same_codes [] [] = true
  same_codes [] (d ∷ ds) = false
  same_codes (c ∷ cs) [] = false
  same_codes (c ∷ cs) (d ∷ ds) = c == d && same_codes cs ds

  abbrev pub is_listed : List (List ℕ) → Option (List ℕ) → Bool
  is_listed allowed none = false
  is_listed allowed (some address) = any (λ a. same_codes address a) allowed

  unfoldable pub sender_allowed : List (List ℕ) → List ℕ → Bool
  sender_allowed allowed sender = is_listed allowed (normalize_sender_address sender)

  -- The part of `Config::load` that keeps the addresses of the list, normalised.
  unfoldable pub normalized_senders : List (List ℕ) → List (List ℕ)
  normalized_senders [] = []
  normalized_senders (s ∷ ss) = elim (normalize_sender_address s) [
    | none ↦ normalized_senders ss
    | some a ↦ a ∷ normalized_senders ss
  ]
