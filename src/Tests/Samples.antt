-- ===== src/Tests/Samples.antt =====
-- A small database and a small configuration.
use mailmux.Base.{
  Distinct, List, String, [], arith, false, nat_eq, none, refl, some, string_eq, true, ℕ, ◌+◌, ◌∷◌,
}
use mailmux.Config.{ProcessorConfig, end, entry, string}
use mailmux.Db.{Db, Event, ProcessorJob, failed}
use mailmux.Db.Invariant.{IsValid}
use mailmux.Db.Jobs.{new_job}
use mailmux.Processor.{timed_out}
use mailmux.Processor.Effects.{Env, World}
use mailmux.Processor.Registry.Eligibility.{same_config}
use mailmux.Processor.Scheduler.Settling.{Quiet}

abbrev pub arrived : Event
arrived = record {
  id = 1;
  event_type = "email_arrived";
  account_id = "work";
  mailbox_name = "INBOX";
  email_id = none;
  payload = "{}";
  created_at = 100;
}

abbrev pub unrouted : Event
unrouted = record {
  id = 2;
  event_type = "email_arrived";
  account_id = "work";
  mailbox_name = "Archive";
  email_id = none;
  payload = "{}";
  created_at = 200;
}

abbrev pub waiting_job : ProcessorJob
waiting_job = new_job 110 1 1 "logger"

abbrev pub failed_job : ProcessorJob
failed_job = record {
  id = 2;
  event_id = 1;
  processor_name = "mailtx";
  status = failed;
  attempts = 1;
  last_error = some "exit code 1";
  next_retry_at = some 150;
  created_at = 110;
  updated_at = 120;
  output = none;
}

abbrev pub sample_db : Db
sample_db = record {
  emails = [];
  events =
      record { event = arrived; dispatched_at = some 110 }
      ∷ record { event = unrouted; dispatched_at = none }
      ∷ [];
  jobs = waiting_job ∷ failed_job ∷ [];
  mailbox_states = [];
  next_email = 1;
  next_event = 3;
  next_job = 3;
  notified = [];
}

pub sample_db-IsValid : IsValid sample_db
unfolding nat_eq string_eq
sample_db-IsValid = record {
  jobs_keyed = (refl, (refl, tt));
  jobs_unique = (refl, (refl, tt));
  jobs_below = omega arith;
  jobs_refer = (refl, (refl, tt));
  events_keyed = (refl, (refl, tt));
  events_below = omega arith;
  emails_keyed = tt;
  emails_unique = tt;
  emails_below = tt;
}

abbrev pub processor_config : String → ℕ → ProcessorConfig
processor_config name max_retries = record {
  name = name;
  enabled = true;
  events = "email_arrived" ∷ [];
  sources = none;
  max_retries = max_retries;
  retry_backoff_secs = 10 ∷ 60 ∷ [];
  timeout_secs = 30;
  concurrency = 1;
  config = entry "command" (string "mailtx") end;
}

abbrev pub sample_configs : List ProcessorConfig
sample_configs = processor_config "logger" 0 ∷ processor_config "mailtx" 3 ∷ []

pub sample_configs-Distinct : Distinct same_config sample_configs
unfolding string_eq
sample_configs-Distinct = (refl, (refl, tt))

-- A database that answers, alone, and processors that time out.
abbrev pub calm : Env
calm = record {
  down = λ n. false;
  clock = λ n. 200 + n;
  others = λ n db. db;
  process = λ n p event email timeout. timed_out;
  to_value = λ out. some "{}";
}

pub calm-Quiet : Quiet calm
calm-Quiet = record { up = λ n. refl; alone = λ n db. refl }

abbrev pub start : World
start = record { db = sample_db; tick = 0; runs = []; emitted = [] }
