-- ===== src/Config.antt =====
-- mailmux/src/config.rs: the processors' part of the configuration, and which events it selects.
use mailmux.Base.{
  Bool, List, Option, String, any, false, nat_eq, none, option_eq, some, string_eq, true, ℕ, ◌&&◌,
  ◌==◌, ◌||◌,
}
use mailmux.Db.{Event}

pub record ProcessorSource : Type 0 where
  pub account : String
  pub mailboxes : Option (List String)

abbrev pub mailbox_listed : Option (List String) → String → Bool
mailbox_listed none mailbox_name = true
mailbox_listed (some names) mailbox_name = any (λ name. name == mailbox_name) names

-- `ProcessorSource::matches`
unfoldable pub source_matches : ProcessorSource → String → String → Bool
source_matches s account_id mailbox_name =
    s.account == account_id && mailbox_listed s.mailboxes mailbox_name

-- `toml::Value`, with the values that hold no text as one case. A table is in the order of its keys.
mutual
  pub data Toml : Type 0 where
    string : String → Toml
    array : Items → Toml
    table : Table → Toml
    scalar : String → Toml

  pub data Items : Type 0 where
    nil : Items
    cons : Toml → Items → Items

  pub data Table : Type 0 where
    end : Table
    entry : String → Toml → Table → Table

pub record ProcessorConfig : Type 0 where
  pub name : String
  pub enabled : Bool
  pub events : List String
  pub sources : Option (List ProcessorSource)
  pub max_retries : ℕ
  pub retry_backoff_secs : List ℕ
  pub timeout_secs : ℕ
  pub concurrency : ℕ
  pub config : Table

unfoldable pub matches_source : ProcessorConfig → String → String → Bool
unfolding source_matches
matches_source c account_id mailbox_name = elim c.sources [
  | none ↦ true
  | some sources ↦ any (λ s. source_matches s account_id mailbox_name) sources
]

-- `HashMap::contains_key`
abbrev pub contains_key : String → Table → Bool
contains_key key end = false
contains_key key (entry k v t) = k == key || contains_key key t

unfoldable pub matches_event : ProcessorConfig → Event → Bool
unfolding matches_source
matches_event c event =
    c.enabled
    && (any (λ e. e == event.event_type) c.events
        && matches_source c event.account_id event.mailbox_name)
