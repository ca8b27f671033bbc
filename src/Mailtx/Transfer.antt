-- ===== src/Mailtx/Transfer.antt =====
-- mailtx/src/transfer.rs: the legs of a transfer and the rules that recognise them.
use mailmux.Base.{
  Bool, List, Option, String, [], all, codes, contains_codes, find?, if◌then◌else◌, lower_codes,
  nat_eq, none, option_eq, some, string_eq, ◌&&◌, ◌<>◌, ◌==◌, ◌∷◌,
}
use mailmux.Mailtx.{MailtxConfig, TransferRule}

pub data Leg : Type 0 where
  withdrawal deposit : Leg

-- `Leg::opposite_str`, as the leg of that name.
unfoldable pub opposite : Leg → Leg
opposite withdrawal = deposit
opposite deposit = withdrawal

unfoldable pub leg_from_tx_type : String → Option Leg
leg_from_tx_type tx_type =
    if tx_type == "withdrawal"
    then some withdrawal
    else if tx_type == "deposit"
    then some deposit
    else none

pub record RuleMatch : Type 0 where
  pub rule_id : String
  pub leg : Leg
  pub source_firefly_id : String
  pub destination_firefly_id : String

unfoldable pub find_firefly_id : MailtxConfig → String → Option String
find_firefly_id config account_id = elim (find? (λ a. a.id == account_id) config.asset_accounts) [
  | none ↦ none
  | some a ↦ some a.firefly_account_id
]

-- The rule's account and keywords on the side of the leg.
abbrev pub rule_side : TransferRule → Leg → String × List String
rule_side rule withdrawal = (rule.source_account, rule.withdrawal_keywords)
rule_side rule deposit = (rule.destination_account, rule.deposit_keywords)

abbrev pub has_keywords : List String → String → Bool
has_keywords keywords narration =
    all (λ kw. contains_codes (lower_codes (codes narration)) (lower_codes (codes kw))) keywords

unfoldable pub rule_applies : String → Leg → String → TransferRule → Bool
rule_applies account leg narration rule =
    (rule_side rule leg).0 == account && has_keywords (rule_side rule leg).1 narration

-- `format!("{}:{}", …)`
abbrev pub rule_id_of : TransferRule → String
rule_id_of rule = rule.source_account <> (":" <> rule.destination_account)

-- The `?` on both accounts ends the search, also with `None`.
abbrev pub matched_rule : TransferRule → Leg → Option String → Option String → Option RuleMatch
matched_rule rule leg none destination = none
matched_rule rule leg (some source) none = none
matched_rule rule leg (some source) (some destination) = some (record {
  rule_id = rule_id_of rule;
  leg = leg;
  source_firefly_id = source;
  destination_firefly_id = destination;
})

abbrev pub detect_in : MailtxConfig → String → Leg → String → List TransferRule → Option RuleMatch
detect_in config account leg narration [] = none
detect_in config account leg narration (rule ∷ rules) =
    let rest = detect_in config account leg narration rules in
    if rule_applies account leg narration rule
    then matched_rule rule leg (find_firefly_id config rule.source_account)
        (find_firefly_id config rule.destination_account)
    else rest

unfoldable pub detect_transfer_rule : MailtxConfig → String → Leg → String → Option RuleMatch
detect_transfer_rule config account leg narration =
    detect_in config account leg narration config.transfer_rules
