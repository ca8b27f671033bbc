-- ===== src/Processor.antt =====
-- mailmux/src/processor/: what a processor is and answers (mod.rs).
pub mod Registry
pub mod Effects
pub mod Scheduler
use mailmux.Base.{Bool, List, Option, String}
use mailmux.Db.{Json}

pub data MetricKind : Type 0 where
  counter gauge : MetricKind

-- The value is the text of the number: it is only passed on.
pub record ProcessorMetric : Type 0 where
  pub name : String
  pub kind : MetricKind
  pub value : String
  pub labels : List (String × String)

pub record ProcessorOutput : Type 0 where
  pub success : Bool
  pub message : Option String
  pub metadata : Option Json
  pub metrics : List ProcessorMetric

-- How `tokio::time::timeout(timeout, processor.process(event, email))` ends.
pub data Outcome : Type 0 where
  answered : ProcessorOutput → Outcome
  failure : String → Outcome
  timed_out : Outcome
