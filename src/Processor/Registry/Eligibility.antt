-- ===== src/Processor/Registry/Eligibility.antt =====
-- Which processors the registry offers for an event.
use mailmux.Base.{
  ==_iff, All, Bool, Bool-cases, Distinct, List, Result, String, [], any, arith, err, false,
  if◌then◌else◌, inl, inr, nat_eq, none, ok, option_eq, refl, some, string_eq, true, ◌==◌, ◌∷◌, ◌≡◌,
}
use mailmux.Config.{ProcessorConfig, contains_key}
use mailmux.Db.{Event}
use mailmux.Processor.Registry.{
  Processor, RegisteredProcessor, add_registered, command, from_config, instantiate, is_named,
  logger, new_processor, processors_for_event, require_processor_for_event,
}

-- Every registered processor is enabled and carries the name and the subscriptions of its config.
abbrev pub IsFaithful : RegisteredProcessor → Type 0
IsFaithful p =
    (p.config.enabled ≡ true)
    × (p.processor.name ≡ p.config.name)
    × (p.processor.subscribed_events ≡ p.config.events)

add-IsFaithful :
    (c : ProcessorConfig) (ps : List RegisteredProcessor)
    → c.enabled ≡ true
    → All IsFaithful ps
    → All IsFaithful (add_registered (instantiate c) ps)
add-IsFaithful c ps e h =
    go (c.name == "logger") (c.name == "command") (contains_key "command" c.config)
  where
    go :
        (b1 b2 b3 : Bool)
        → All IsFaithful (
            add_registered
              (if b1
                then some (new_processor logger c)
                else if b2
                then some (new_processor command c)
                else if b3
                then some (new_processor command c)
                else none)
              ps)
    go true b2 b3 = ((e, refl, refl), h)
    go false true b3 = ((e, refl, refl), h)
    go false false true = ((e, refl, refl), h)
    go false false false = h

pub from_config-All : (cs : List ProcessorConfig) → All IsFaithful (from_config cs)
unfolding from_config
from_config-All [] = tt
from_config-All (c ∷ cs) = add c.enabled refl (from_config-All cs)
  where
    add :
        (b : Bool)
        → c.enabled ≡ b
        → All IsFaithful (from_config cs)
        → All IsFaithful
            (if b then add_registered (instantiate c) (from_config cs) else from_config cs)
    add true e h = add-IsFaithful c (from_config cs) e h
    add false e h = h

abbrev pub same_config : ProcessorConfig → ProcessorConfig → Bool
same_config a b = b.name == a.name

abbrev pub same_processor : RegisteredProcessor → RegisteredProcessor → Bool
same_processor a b = is_named a.processor.name b

-- A name that no config has is no processor's.
add-any_named :
    (name : String) (c : ProcessorConfig) (ps : List RegisteredProcessor)
    → (c.name == name) ≡ false
    → any (is_named name) ps ≡ false
    → any (is_named name) (add_registered (instantiate c) ps) ≡ false
add-any_named name c ps e h = ground arith

from_config-any_named :
    (name : String) (cs : List ProcessorConfig)
    → any (λ c. c.name == name) cs ≡ false
    → any (is_named name) (from_config cs) ≡ false
unfolding from_config
from_config-any_named name [] h = refl
from_config-any_named name (c ∷ cs) h =
    ground (arith, from_config-any_named name cs, add-any_named name c (from_config cs))

add-Distinct :
    (c : ProcessorConfig) (ps : List RegisteredProcessor)
    → any (is_named c.name) ps ≡ false
    → Distinct same_processor ps
    → Distinct same_processor (add_registered (instantiate c) ps)
add-Distinct c ps e h =
    go (c.name == "logger") (c.name == "command") (contains_key "command" c.config)
  where
    go :
        (b1 b2 b3 : Bool)
        → Distinct same_processor (
            add_registered
              (if b1
                then some (new_processor logger c)
                else if b2
                then some (new_processor command c)
                else if b3
                then some (new_processor command c)
                else none)
              ps)
    go true b2 b3 = (e, h)
    go false true b3 = (e, h)
    go false false true = (e, h)
    go false false false = h

from_config-Distinct :
    (cs : List ProcessorConfig) → Distinct same_config cs → Distinct same_processor (from_config cs)
unfolding from_config
from_config-Distinct [] h = tt
from_config-Distinct (c ∷ cs) (new, rest) = add c.enabled (from_config-Distinct cs rest)
  where
    add :
        (b : Bool)
        → Distinct same_processor (from_config cs)
        → Distinct same_processor
            (if b then add_registered (instantiate c) (from_config cs) else from_config cs)
    add true h = add-Distinct c (from_config cs) (from_config-any_named c.name cs new) h
    add false h = h

abbrev pub is_ok {ℓ} : {A : Type ℓ} → Result A → Bool
is_ok (ok a) = true
is_ok (err e) = false

abbrev pub has_name : String → Processor → Bool
has_name name p = p.name == name

not_offered :
    (name : String) (event : Event) (ps : List RegisteredProcessor)
    → any (is_named name) ps ≡ false
    → any (has_name name) (processors_for_event ps event) ≡ false
unfolding processors_for_event
not_offered name event [] h = refl
not_offered name event (p ∷ ps) h = ground (arith, not_offered name event ps)

require-offered :
    (name : String) (event : Event) (ps : List RegisteredProcessor)
    → All IsFaithful ps
    → Distinct same_processor ps
    → is_ok (require_processor_for_event ps name event)
      ≡ any (has_name name) (processors_for_event ps event)
unfolding processors_for_event require_processor_for_event
require-offered name event [] f d = refl
require-offered name event (p ∷ ps) (f, fs) (d, ds) = elim (Bool-cases (is_named name p)) [
  | inl same ↦
      let e = (==_iff p.processor.name name).0 same in
      ground (arith, not_offered name event ps (rw e at d))
  | inr other ↦ ground (arith, require-offered name event ps fs ds)
]

-- The check that a job passes when it is registered (`processors_for_event`) is the check that it
-- passes again before it is executed (`require_processor_for_event`): in a registry built from
-- configs with distinct names, a name is accepted for an event exactly when a processor of that name
-- is among those that are offered for it.
pub require-processors_for_event :
    (cs : List ProcessorConfig) (name : String) (event : Event)
    → Distinct same_config cs
    → is_ok (require_processor_for_event (from_config cs) name event)
      ≡ any (has_name name) (processors_for_event (from_config cs) event)
require-processors_for_event cs name event h =
    require-offered name event (from_config cs) (from_config-All cs) (from_config-Distinct cs h)
