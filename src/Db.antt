-- ===== src/Db.antt =====
-- The rows that mailmux keeps (mailmux/src/db/*.rs and the tables of mailmux/migrations/), and the
-- database as one value. A timestamp is a number of seconds, a JSON value is its text, and the text
-- column `status` is the data type of the five words that the code writes into it.
pub mod Jobs
pub mod Queue
pub mod Runnable
pub mod Constraints
pub mod Steps
pub mod Dispatch
pub mod Exclusion
pub mod Refinement
pub mod View
pub mod Integrity
pub mod Invariant
pub mod Events
pub mod Emails
pub mod Housekeeping
use mailmux.Base.{Bool, List, Option, String, find?, nat_eq, option_eq, string_eq, ℕ, ◌&&◌, ◌==◌}

-- A `serde_json::Value`, which the modelled code stores and passes on.
abbrev pub Json : Type 0
Json = String

pub record EmailRecord : Type 0 where
  pub id : ℕ
  pub account_id : String
  pub mailbox_name : String
  pub uid : ℕ
  pub message_id : Option String
  pub subject : Option String
  pub sender : Option String
  pub recipients : Option Json
  pub date : Option ℕ
  pub flags : List String
  pub raw_message_path : String
  pub size_bytes : Option ℕ
  pub created_at : ℕ
  pub updated_at : ℕ

pub record NewEmail : Type 0 where
  pub account_id : String
  pub mailbox_name : String
  pub uid : ℕ
  pub message_id : Option String
  pub subject : Option String
  pub sender : Option String
  pub recipients : Option Json
  pub date : Option ℕ
  pub flags : List String
  pub raw_message_path : String
  pub size_bytes : Option ℕ

-- Without the column `id`, the serial key, which no query but the INSERT names.
pub record MailboxState : Type 0 where
  pub account_id : String
  pub mailbox_name : String
  pub uid_validity : ℕ
  pub last_seen_uid : ℕ
  pub last_sync_at : Option ℕ

pub record Event : Type 0 where
  pub id : ℕ
  pub event_type : String
  pub account_id : String
  pub mailbox_name : String
  pub email_id : Option ℕ
  pub payload : Json
  pub created_at : ℕ

pub record NewEvent : Type 0 where
  pub event_type : String
  pub account_id : String
  pub mailbox_name : String
  pub email_id : Option ℕ
  pub payload : Json

-- A row of the table `events`: the event and the column `dispatched_at`, which `Event` leaves out.
pub record EventRow : Type 0 where
  pub event : Event
  pub dispatched_at : Option ℕ

pub data Status : Type 0 where
  pending in_progress completed failed abandoned : Status

pub record ProcessorJob : Type 0 where
  pub id : ℕ
  pub event_id : ℕ
  pub processor_name : String
  pub status : Status
  pub attempts : ℕ
  pub last_error : Option String
  pub next_retry_at : Option ℕ
  pub created_at : ℕ
  pub updated_at : ℕ
  pub output : Option Json

-- The tables, and the next value of the sequence behind each `BIGSERIAL` key.
pub record Db : Type 0 where
  pub emails : List EmailRecord
  pub events : List EventRow
  pub jobs : List ProcessorJob
  pub mailbox_states : List MailboxState
  pub next_email : ℕ
  pub next_event : ℕ
  pub next_job : ℕ
  pub notified : List ℕ  -- payloads of `pg_notify('mailmux_events', …)`

-- The largest value of a column of type INT.
abbrev pub i32_max : ℕ
i32_max = 2147483647

abbrev pub has_id : ℕ → ProcessorJob → Bool
has_id id j = j.id == id

-- UNIQUE (event_id, processor_name)
abbrev pub is_job_of : ℕ → String → ProcessorJob → Bool
is_job_of event_id name j = j.event_id == event_id && j.processor_name == name

abbrev pub has_event_id : ℕ → EventRow → Bool
has_event_id id e = e.event.id == id

-- SELECT … WHERE id = $1
unfoldable pub job_at : ℕ → Db → Option ProcessorJob
job_at id db = find? (has_id id) db.jobs

unfoldable pub event_at : ℕ → Db → Option EventRow
event_at id db = find? (has_event_id id) db.events
