-- ===== src/Processor/Registry.antt =====
-- mailmux/src/processor/registry.rs, with the names and subscriptions of the two processors of
-- mailmux/src/processor/builtin/.
pub mod Eligibility
use mailmux.Base.{
  Bool, List, Option, Result, String, [], any, err, find?, if◌then◌else◌, map, nat_eq, none, not,
  ok, option_eq, select, some, string_eq, ◌<>◌, ◌==◌, ◌∷◌,
}
use mailmux.Config.{ProcessorConfig, contains_key, matches_event, matches_source}
use mailmux.Db.{Event}

pub data Kind : Type 0 where
  logger command : Kind

-- `LoggerProcessor::new` and `CommandProcessor::new` copy the name and the events of the config.
pub record Processor : Type 0 where
  pub name : String
  pub subscribed_events : List String
  pub kind : Kind

pub record RegisteredProcessor : Type 0 where
  pub processor : Processor
  pub config : ProcessorConfig

abbrev pub new_processor : Kind → ProcessorConfig → RegisteredProcessor
new_processor kind c = record {
  processor = record { name = c.name; subscribed_events = c.events; kind = kind };
  config = c;
}

-- The `match` on the configured name.
abbrev pub instantiate : ProcessorConfig → Option RegisteredProcessor
instantiate c =
    if c.name == "logger"
    then some (new_processor logger c)
    else if c.name == "command"
    then some (new_processor command c)
    else if contains_key "command" c.config
    then some (new_processor command c)
    else none

abbrev pub add_registered :
    Option RegisteredProcessor → List RegisteredProcessor → List RegisteredProcessor
add_registered none ps = ps
add_registered (some p) ps = p ∷ ps

unfoldable pub from_config : List ProcessorConfig → List RegisteredProcessor
from_config [] = []
from_config (c ∷ cs) =
    let rest = from_config cs in if c.enabled then add_registered (instantiate c) rest else rest

unfoldable pub processors_for_event : List RegisteredProcessor → Event → List Processor
unfolding matches_event
processors_for_event ps event =
    map (λ p. p.processor) (select (λ p. matches_event p.config event) ps)

abbrev pub is_named : String → RegisteredProcessor → Bool
is_named name p = p.processor.name == name

unfoldable pub processor_by_name : List RegisteredProcessor → String → Option Processor
processor_by_name ps name = elim (find? (is_named name) ps) [
  | none ↦ none
  | some p ↦ some p.processor
]

abbrev pub require_registered : String → Event → Option RegisteredProcessor → Result Processor
require_registered name event none = err ("processor '" <> (name <> "' is unavailable or disabled"))
require_registered name event (some p) =
    if not (any (λ e. e == event.event_type) p.config.events)
    then err (
        "processor '"
        <> (name <> ("' is not subscribed to event type '" <> (event.event_type <> "'"))))
    else if not (matches_source p.config event.account_id event.mailbox_name)
    then err (
        "processor '"
        <> (name
            <> ("' excludes source account '"
                <> (event.account_id <> ("' mailbox '" <> (event.mailbox_name <> "'"))))))
    else ok p.processor

unfoldable pub require_processor_for_event :
    List RegisteredProcessor → String → Event → Result Processor
unfolding matches_source
require_processor_for_event ps name event = require_registered name event (find? (is_named name) ps)
