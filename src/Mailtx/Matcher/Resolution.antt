-- ===== src/Mailtx/Matcher/Resolution.antt =====
-- Which account `resolve_asset_account` of mailtx/src/matcher.rs gives, and when it gives none.
use mathlib.Core.Option.{some-injective}
use mailmux.Base.{
  Bool, Has, List, Option, Result, String, [], any, any-Has, arith, codes, contains_codes, err,
  false, find?, if◌then◌else◌, inl, inr, lower_codes, none, ok, refl, some, subst, sym, true, ℕ,
  ◌∙◌, ◌∷◌, ◌≡◌, ◌⊎◌,
}
use mailmux.Mailtx.Matcher.{
  Captures, MatchedAssetAccount, NormalizedAccount, by_card, first_alias, first_capture, has_card,
  matches_account_suffix, resolve_in,
}

module _ (captures : Captures) (accounts : List NormalizedAccount) (text : String) where
  -- The text names the account by a debit card, by the end of an account number or by an alias.
  pub record Named (a : NormalizedAccount) : Type 0 where
    pub configured : Has a accounts
    pub named :
        ((v : String) × (Has v (captures.cards text) × (has_card v a ≡ true)))
        ⊎ (((v : String) × (Has v (captures.accounts text) × (matches_account_suffix a v ≡ true)))
            ⊎ (any (λ alias. contains_codes (lower_codes (codes text)) alias) a.aliases ≡ true))

  abbrev pub Resolved : Option String → Result MatchedAssetAccount → Type 0
  Resolved default (ok r) =
      ((a : NormalizedAccount) × (Named a
          × ((r.account_id ≡ a.id) × (r.firefly_account_id ≡ a.firefly_account_id))))
      ⊎ (((a : NormalizedAccount) → ¬ Named a) × (default ≡ some r.firefly_account_id))
  Resolved default (err e) = ((a : NormalizedAccount) → ¬ Named a) × (default ≡ none)

find?-Has :
    {A : Type 0} (p : A → Bool) (xs : List A) (a : A)
    → find? p xs ≡ some a
    → Has a xs × (p a ≡ true)
find?-Has p [] a h = absurd (cc h)
find?-Has p (x ∷ xs) a h = go (p x) refl h (λ k. find?-Has p xs a k)
  where
    go :
        (b : Bool)
        → p x ≡ b
        → (if b then some x else find? p xs) ≡ some a
        → (find? p xs ≡ some a → Has a xs × (p a ≡ true))
        → Has a (x ∷ xs) × (p a ≡ true)
    go true e k r =
        (inl (sym (some-injective _ _ k)), subst (λ y. p y ≡ true) (some-injective _ _ k) e)
    go false e k r = (inr (r k).0, (r k).1)

find?-none :
    {A : Type 0} (p : A → Bool) (xs : List A) (a : A) → find? p xs ≡ none → Has a xs → p a ≡ false
find?-none p [] a h m = absurd m
find?-none p (x ∷ xs) a h (inl e) = subst (λ y. p y ≡ false) (sym e) (ground arith)
find?-none p (x ∷ xs) a h (inr m) = find?-none p xs a (ground arith) m

find?-none-any : {A : Type 0} (p : A → Bool) (xs : List A) → find? p xs ≡ none → any p xs ≡ false
find?-none-any p [] h = refl
find?-none-any p (x ∷ xs) h = ground (arith, find?-none-any p xs)

module _ (test : String → NormalizedAccount → Bool) (accounts : List NormalizedAccount) where
  -- The capture and the account that were found pass the test, and with none found no account does.
  abbrev Capture : List String → Option (String × NormalizedAccount) → Type 0
  Capture vs (some (v, a)) = Has v vs × (Has a accounts × (test v a ≡ true))
  Capture vs none =
      (v : String) (a : NormalizedAccount) → Has v vs → Has a accounts → test v a ≡ false

  first_capture-Capture : (vs : List String) → Capture vs (first_capture test accounts vs)
  unfolding first_capture
  first_capture-Capture [] = λ v a m n. absurd m
  first_capture-Capture (v ∷ vs) =
      go (find? (test v) accounts) refl (first_capture test accounts vs) (first_capture-Capture vs)
    where
      go :
          (o : Option NormalizedAccount)
          → find? (test v) accounts ≡ o
          → (rest : Option (String × NormalizedAccount)) → Capture vs rest
          → Capture (v ∷ vs) (elim o [ none ↦ rest | some a ↦ some (v, a) ])
      go (some a) e rest c = (inl refl, find?-Has (test v) accounts a e)
      go none e (some (u, a)) (m, c) = (inr m, c)
      go none e none c = λ u a m n. elim m [
        | inl q ↦ subst (λ w. test w a ≡ false) (sym q) (find?-none (test v) accounts a e n)
        | inr k ↦ c u a k n
      ]

abbrev Alias : String → List NormalizedAccount → Option (List ℕ × NormalizedAccount) → Type 0
Alias text accounts (some (alias, a)) =
    Has a accounts × (any (λ s. contains_codes (lower_codes (codes text)) s) a.aliases ≡ true)
Alias text accounts none =
    (a : NormalizedAccount)
    → Has a accounts
    → any (λ s. contains_codes (lower_codes (codes text)) s) a.aliases ≡ false

first_alias-Alias :
    (text : String) (accounts : List NormalizedAccount)
    → Alias text accounts (first_alias text accounts)
unfolding first_alias
first_alias-Alias text [] = λ a m. absurd m
first_alias-Alias text (x ∷ accounts) =
    go (find? test x.aliases) refl (first_alias text accounts) (first_alias-Alias text accounts)
  where
    test : List ℕ → Bool
    test alias = contains_codes (lower_codes (codes text)) alias

    go :
        (o : Option (List ℕ))
        → find? test x.aliases ≡ o
        → (rest : Option (List ℕ × NormalizedAccount)) → Alias text accounts rest
        → Alias text (x ∷ accounts) (elim o [ none ↦ rest | some alias ↦ some (alias, x) ])
    go (some alias) e rest c =
        let f : Has alias x.aliases × (test alias ≡ true) = find?-Has test x.aliases alias e in
        (inl refl, any-Has test alias x.aliases f.0 f.1)
    go none e (some (alias, a)) (m, c) = (inr m, c)
    go none e none c = λ a m. elim m [
      | inl q ↦
          subst (λ (y : NormalizedAccount). any test y.aliases ≡ false) (sym q)
            (find?-none-any test x.aliases e)
      | inr k ↦ c a k
    ]

module _ (captures : Captures) (accounts : List NormalizedAccount) (text : String) where
  not-Named :
      Capture has_card accounts (captures.cards text) none
      → Capture (λ v a. matches_account_suffix a v) accounts (captures.accounts text) none
      → Alias text accounts none
      → (a : NormalizedAccount) → ¬ Named captures accounts text a
  not-Named c s l a n = elim n.named [
    | inl (v, (m, e)) ↦ cc (sym (c v a m n.configured) ∙ e)
    | inr (inl (v, (m, e))) ↦ cc (sym (s v a m n.configured) ∙ e)
    | inr (inr e) ↦ cc (sym (l a n.configured) ∙ e)
  ]

  -- An account that is given is one of the configured accounts that the text names, by a debit card,
  -- the end of an account number or an alias, or the default
  -- when it names none; and without a default there is an error exactly when it names none.
  pub resolve_in-Resolved :
      (default : Option String)
      → Resolved captures accounts text default (resolve_in captures accounts default text)
  unfolding resolve_in
  resolve_in-Resolved default =
      go (first_capture has_card accounts (captures.cards text))
        (first_capture-Capture has_card accounts (captures.cards text))
        (first_capture (λ v a. matches_account_suffix a v) accounts (captures.accounts text))
        (first_capture-Capture (λ v a. matches_account_suffix a v) accounts
          (captures.accounts text))
        (first_alias text accounts) (first_alias-Alias text accounts) default
    where
      go :
          (card : Option (String × NormalizedAccount))
          → Capture has_card accounts (captures.cards text) card
          → (suffix : Option (String × NormalizedAccount))
          → Capture (λ v a. matches_account_suffix a v) accounts (captures.accounts text) suffix
          → (alias : Option (List ℕ × NormalizedAccount)) → Alias text accounts alias
          → (d : Option String) → Resolved captures accounts text d (by_card d alias suffix card)
      go (some (v, a)) (m, (n, e)) suffix s alias l d =
          inl (a, (record { configured = n; named = inl (v, (m, e)) }, (refl, refl)))
      go none c (some (v, a)) (m, (n, e)) alias l d =
          inl (a, (record { configured = n; named = inr (inl (v, (m, e))) }, (refl, refl)))
      go none c none s (some (v, a)) (n, e) d =
          inl (a, (record { configured = n; named = inr (inr e) }, (refl, refl)))
      go none c none s none l (some id) = inr (not-Named c s l, refl)
      go none c none s none l none = (not-Named c s l, refl)
