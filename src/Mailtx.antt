-- ===== src/Mailtx.antt =====
-- mailtx/src/: the program that turns bank mails into transactions. An amount (`f64`) is its text and
-- a `DateTime` a number of seconds.
pub mod Transfer
pub mod Store
pub mod Sender
pub mod Matcher
pub mod Canonical
pub mod Books
pub mod Run
use mailmux.Base.{List, Option, String, ℕ}

abbrev pub Amount : Type 0
Amount = String

pub record TransferRule : Type 0 where
  pub source_account : String
  pub destination_account : String
  pub withdrawal_keywords : List String
  pub deposit_keywords : List String

pub record FireflyAssetAccountConfig : Type 0 where
  pub id : String
  pub firefly_account_id : String
  pub account_suffixes : List String
  pub debit_card_last4 : List String
  pub aliases : List String

-- The settings of `Config` and `FireflyConfig` that a run reads.
pub record MailtxConfig : Type 0 where
  pub allowed_senders : List (List ℕ)
  pub tag : String
  pub asset_accounts : List FireflyAssetAccountConfig
  pub default_asset_account_id : Option String
  pub state_db : Option String
  pub transfer_match_window_hours : ℕ
  pub transfer_rules : List TransferRule

-- `TransactionData` of mailtx/src/llm.rs.
pub record TransactionData : Type 0 where
  pub status : String
  pub amount : Option Amount
  pub transaction_type : Option String
  pub narration : Option String
  pub transaction_date : Option String
  pub category : Option String

-- mailtx/src/endpoint/mod.rs
pub data TransactionKind : Type 0 where
  withdrawal_kind deposit_kind transfer_kind : TransactionKind

pub record CanonicalTransaction : Type 0 where
  pub amount : Amount
  pub kind : TransactionKind
  pub narration : String
  pub occurred_at : ℕ
  pub asset_account_id : String
  pub transfer_destination_account_id : Option String
  pub tags : List String
  pub category_name : Option String
  pub external_id : Option String
