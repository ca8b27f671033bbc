-- ===== src/Mailtx/Matcher.antt =====
-- mailtx/src/matcher.rs: which asset account a mail is about. What the two regular expressions
-- capture in a text is given by `captures`.
pub mod Resolution
use mailmux.Base.{
  Bool, List, Option, Result, String, [], any, codes, contains_codes, err, false, find?, is_nil,
  leb, length, lower_codes, map, nat_eq, none, not, ok, option_eq, select, some, string_eq, trim,
  trim_codes, true, ℕ, ◌&&◌, ◌<>◌, ◌==◌, ◌||◌, ◌∷◌,
}
use mailmux.Mailtx.{FireflyAssetAccountConfig, MailtxConfig}

pub record MatchedAssetAccount : Type 0 where
  pub account_id : String
  pub firefly_account_id : String
  pub method : String
  pub matched_value : Option (List ℕ)

pub record NormalizedAccount : Type 0 where
  pub id : String
  pub firefly_account_id : String
  pub account_suffixes : List (List ℕ)
  pub debit_card_last4 : List (List ℕ)
  pub aliases : List (List ℕ)

-- The first group of each match of `card_re` and of `account_re`.
pub record Captures : Type 0 where
  pub cards : String → List String
  pub accounts : String → List String

unfoldable pub normalize_digits : List ℕ → List ℕ
normalize_digits cs = select (λ c. leb 48 c && leb c 57) cs

unfoldable pub from_account_config : FireflyAssetAccountConfig → NormalizedAccount
from_account_config c = record {
  id = trim c.id;
  firefly_account_id = trim c.firefly_account_id;
  account_suffixes =
      select (λ v. not (is_nil v)) (map (λ v. normalize_digits (codes v)) c.account_suffixes);
  debit_card_last4 =
      select (λ v. length v == 4) (map (λ v. normalize_digits (codes v)) c.debit_card_last4);
  aliases = select (λ v. not (is_nil v)) (map (λ v. lower_codes (trim_codes (codes v))) c.aliases);
}

abbrev pub equal_codes : List ℕ → List ℕ → Bool
equal_codes [] [] = true
equal_codes [] (d ∷ ds) = false
equal_codes (c ∷ cs) [] = false
equal_codes (c ∷ cs) (d ∷ ds) = c == d && equal_codes cs ds

-- `str::ends_with`
abbrev pub ends_with : List ℕ → List ℕ → Bool
ends_with [] suffix = equal_codes [] suffix
ends_with (c ∷ cs) suffix = equal_codes (c ∷ cs) suffix || ends_with cs suffix

unfoldable pub matches_account_suffix : NormalizedAccount → String → Bool
matches_account_suffix a observed =
    not (is_nil (normalize_digits (codes observed)))
    && any (λ suffix. ends_with (normalize_digits (codes observed)) suffix) a.account_suffixes

abbrev pub matched : String → Option (List ℕ) → NormalizedAccount → MatchedAssetAccount
matched method value a = record {
  account_id = a.id;
  firefly_account_id = a.firefly_account_id;
  method = method;
  matched_value = value;
}

abbrev pub has_card : String → NormalizedAccount → Bool
has_card last4 a = any (λ v. equal_codes v (codes last4)) a.debit_card_last4

-- The first capture that an account passes, with the first such account.
unfoldable pub first_capture :
    (String → NormalizedAccount → Bool)
    → List NormalizedAccount
    → List String
    → Option (String × NormalizedAccount)
first_capture test accounts [] = none
first_capture test accounts (v ∷ vs) = elim (find? (test v) accounts) [
  | none ↦ first_capture test accounts vs
  | some a ↦ some (v, a)
]

-- The first account with an alias in the text, with its first such alias.
unfoldable pub first_alias : String → List NormalizedAccount → Option (List ℕ × NormalizedAccount)
first_alias text [] = none
first_alias text (a ∷ accounts) =
    elim (find? (λ alias. contains_codes (lower_codes (codes text)) alias) a.aliases) [
      | none ↦ first_alias text accounts
      | some alias ↦ some (alias, a)
    ]

abbrev pub by_default : Option String → Result MatchedAssetAccount
by_default none = err "unable to resolve Firefly asset account from email content"
by_default (some id) = ok (record {
  account_id = "default";
  firefly_account_id = id;
  method = "default_fallback";
  matched_value = none;
})

abbrev pub by_alias :
    Option String → Option (List ℕ × NormalizedAccount) → Result MatchedAssetAccount
by_alias default (some (alias, a)) = ok (matched "alias" (some alias) a)
by_alias default none = by_default default

abbrev pub by_suffix :
    Option String
    → Option (List ℕ × NormalizedAccount)
    → Option (String × NormalizedAccount)
    → Result MatchedAssetAccount
by_suffix default alias (some (v, a)) = ok (matched "account_suffix" (some (codes v)) a)
by_suffix default alias none = by_alias default alias

abbrev pub by_card :
    Option String
    → Option (List ℕ × NormalizedAccount)
    → Option (String × NormalizedAccount)
    → Option (String × NormalizedAccount)
    → Result MatchedAssetAccount
by_card default alias suffix (some (v, a)) = ok (matched "debit_card_last4" (some (codes v)) a)
by_card default alias suffix none = by_suffix default alias suffix

module _ (captures : Captures) where
  unfoldable pub resolve_in :
      List NormalizedAccount → Option String → String → Result MatchedAssetAccount
  resolve_in accounts default text =
      by_card default (first_alias text accounts)
        (first_capture (λ v a. matches_account_suffix a v) accounts (captures.accounts text))
        (first_capture has_card accounts (captures.cards text))

  -- `DeterministicAccountMatcher::new` and `resolve_asset_account`
  unfoldable pub resolve_asset_account : MailtxConfig → String → String → Result MatchedAssetAccount
  resolve_asset_account config subject body =
      resolve_in (map from_account_config config.asset_accounts) config.default_asset_account_id
        (subject <> ("\n" <> body))
