-- ===== src/Imap/Sync.antt =====
-- mailmux/src/imap/sync.rs: one synchronisation of a mailbox (`do_incremental_sync`). A UID is the
-- number that the server sends, and `last_seen_uid + 1` wraps as a u32 does.
pub mod Mailbox
pub mod Batches
pub mod Ingestion
pub mod Coverage
pub mod Checkpoints
pub mod Completion
use mailmux.Base.{
  Bool, Eff, List, Option, Result, String, [], any, drop, err, false, go_on, if◌then◌else◌,
  is_empty, leb, length, max, nat_eq, none, not, ok, option_eq, select, some, string_eq, suc,
  succeed, take, trim, true, zero, ℕ, ◌%◌, ◌+◌, ◌-◌, ◌==◌, ◌^◌, ◌∷◌,
}
use mailmux.Base.Effects.{◌>>=◌, ◌>>◌}
use mailmux.Db.{Db, Json, MailboxState, NewEmail, NewEvent}
use mailmux.Db.Emails.{get_mailbox_state, upsert_mailbox_state}
use mailmux.Db.Events.{insert_email_with_event}
use mailmux.Mailtx.Run.{stored}

abbrev pub fetch_batch_size : ℕ
fetch_batch_size = 500

-- The part of `AccountConfig` that a synchronisation reads.
pub record AccountConfig : Type 0 where
  pub id : String
  pub initial_sync_start_date : Option String
  pub initial_sync_max_messages : Option ℕ

pub record FetchedMessage : Type 0 where
  pub uid : ℕ
  pub flags : List String
  pub size : Option ℕ
  pub raw_bytes : List ℕ

-- What `mail_parser` finds in a message; the addresses of `To` are already written as JSON.
pub record ParsedMessage : Type 0 where
  pub message_id : Option String
  pub subject : Option String
  pub from_address : Option String
  pub recipients : Option Json
  pub date : Option ℕ

-- What is outside of the program. `tick` counts the calls, so that each may answer otherwise.
pub record Surroundings : Type 0 where
  pub down : ℕ → Bool  -- the database refuses the query
  pub clock : ℕ → ℕ  -- `now()` of the database
  pub others : ℕ → Db → Db  -- what the other tasks do to the tables before the query
  pub is_cancelled : ℕ → Bool  -- the token
  pub uid_list : ℕ → ℕ → Result (List ℕ)  -- the server's answer to UID FETCH n:* (UID)
  pub search_since : ℕ → String → Result (List ℕ)
  pub fetch_range : ℕ → ℕ → ℕ → Result (List FetchedMessage)
  pub parse : List ℕ → Option ParsedMessage
  pub lowercase : String → String
  pub save : ℕ → String → String → ℕ → Result String  -- the path in the message store
  pub payload : ℕ → Option String → Option String → Json

pub record Mailroom : Type 0 where
  pub db : Db
  pub tick : ℕ
  pub ingested : ℕ  -- `metrics::inc_messages_ingested` and `inc_events_created`

abbrev pub Syncing : Type 0 → Type 0
Syncing A = Eff Mailroom A

abbrev pub bare_message : ParsedMessage
bare_message = record {
  message_id = none;
  subject = none;
  from_address = none;
  recipients = none;
  date = none;
}

abbrev pub or_bare : Option ParsedMessage → ParsedMessage
or_bare none = bare_message
or_bare (some m) = m

-- `saturating_sub`, with no limit when there is none.
abbrev pub skipped : Option ℕ → List ℕ → ℕ
skipped none uids = 0
skipped (some most) uids = length uids - most

-- `chunks(n)` on fuel: a chunk has one entry at least, so the length is enough.
unfoldable pub uid_chunks : ℕ → ℕ → List ℕ → List (List ℕ)
uid_chunks zero n xs = []
uid_chunks (suc fuel) n [] = []
uid_chunks (suc fuel) n (x ∷ xs) = take n (x ∷ xs) ∷ uid_chunks fuel n (drop n (x ∷ xs))

abbrev pub last_of : ℕ → List ℕ → ℕ
last_of x [] = x
last_of x (y ∷ ys) = last_of y ys

-- The UIDVALIDITY of the server decides whether the stored UID still counts.
unfoldable pub resume_from : ℕ → Option MailboxState → ℕ
resume_from uid_validity none = 0
resume_from uid_validity (some state) =
    if not (state.uid_validity == uid_validity) then 0 else state.last_seen_uid % 2 ^ 32

-- What is left of a batch: nothing if the token was cancelled, or the greatest UID and the count.
pub data Batch : Type 0 where
  stopped : Batch
  finished : ℕ → ℕ → Batch

module _ (env : Surroundings) (account : AccountConfig) (mailbox : String) where
  abbrev pub run_query : {A : Type 0} → Mailroom → Bool → (Db → A × Db) → Result A × Mailroom
  run_query w true f = (err "database error", record w { tick = suc w.tick })
  run_query w false f = let (a, db) = f w.db in (ok a, record w { db = db; tick = suc w.tick })

  -- The other tasks come first, and the query is refused or runs on what they left.
  unfoldable pub in_db : {A : Type 0} → (ℕ → Db → A × Db) → Syncing A
  in_db f w =
      run_query (record w { db = env.others w.tick w.db }) (env.down w.tick) (f (env.clock w.tick))

  abbrev pub call : {A : Type 0} → (ℕ → Result A) → Syncing A
  call f w = (f w.tick, record w { tick = suc w.tick })

  abbrev pub new_email : FetchedMessage → ParsedMessage → String → NewEmail
  new_email m p path = record {
    account_id = account.id;
    mailbox_name = mailbox;
    uid = m.uid;
    message_id = p.message_id;
    subject = p.subject;
    sender = sender_of p.from_address;
    recipients = p.recipients;
    date = p.date;
    flags = m.flags;
    raw_message_path = path;
    size_bytes = m.size;
  }
    where
      sender_of : Option String → Option String
      sender_of none = none
      sender_of (some address) =
          if is_empty (env.lowercase (trim address))
          then none
          else some (env.lowercase (trim address))

  abbrev pub new_event : FetchedMessage → NewEmail → NewEvent
  new_event m email = record {
    event_type = "email_arrived";
    account_id = account.id;
    mailbox_name = mailbox;
    email_id = none;
    payload = env.payload m.uid email.subject email.sender;
  }

  abbrev pub persisted : Result (Option (ℕ × ℕ)) → Syncing ℕ
  persisted (ok (some ids)) w = (ok 1, record w { ingested = suc w.ingested })
  persisted (ok none) w = (ok 0, w)
  persisted (err e) w = (ok 0, w)

  abbrev pub attempted : {A : Type 0} → Result A × Mailroom → Result (Result A) × Mailroom
  attempted (r, w) = (ok r, w)

  -- An error of the database is only logged.
  abbrev pub persist : FetchedMessage → NewEmail → Syncing ℕ
  persist m email w =
      go_on persisted
        (attempted (in_db (λ now db. insert_email_with_event now email (new_event m email) db) w))

  unfoldable pub ingest_message : FetchedMessage → Syncing ℕ
  ingest_message m = do
    path ← call (λ n. env.save n account.id mailbox m.uid)
    persist m (new_email m (or_bare (env.parse m.raw_bytes)) path)

  unfoldable pub checkpoint : ℕ → ℕ → Syncing (Unit {0})
  checkpoint uid_validity uid =
      in_db (λ now db. (tt, upsert_mailbox_state now account.id mailbox uid_validity uid db))

  unfoldable pub ingest_batch : List FetchedMessage → ℕ → ℕ → Syncing Batch
  ingest_batch [] top count w = (ok (finished top count), w)
  ingest_batch (m ∷ ms) top count w =
      let rest : ℕ → Syncing Batch = λ n. ingest_batch ms (max m.uid top) (count + n) in
      if env.is_cancelled w.tick then (ok stopped, w) else go_on rest (ingest_message m w)

  abbrev pub close_batch : ℕ → ℕ → (ℕ → ℕ → Syncing ℕ) → Batch → Syncing ℕ
  close_batch uid_validity total rest stopped = succeed total
  close_batch uid_validity total rest (finished top count) = do
    checkpoint uid_validity top
    rest top (total + count)

  abbrev pub sync_chunk : ℕ → List ℕ → ℕ → ℕ → (ℕ → ℕ → Syncing ℕ) → Syncing ℕ
  sync_chunk uid_validity [] top total rest = rest top total
  sync_chunk uid_validity (uid ∷ uids) top total rest = do
    messages ← call (λ n. env.fetch_range n uid (last_of uid uids))
    batch ← ingest_batch messages top 0
    close_batch uid_validity total rest batch

  -- The loop over the batches, each with its checkpoint.
  unfoldable pub sync_chunks : ℕ → List (List ℕ) → ℕ → ℕ → Syncing ℕ
  sync_chunks uid_validity [] top total w = (ok total, w)
  sync_chunks uid_validity (c ∷ cs) top total w =
      let rest = sync_chunks uid_validity cs in
      if env.is_cancelled w.tick then (ok total, w) else sync_chunk uid_validity c top total rest w

  -- `uid_fetch_uid_list` drops what lies below the start.
  abbrev pub uid_fetch_uid_list : ℕ → Syncing (List ℕ)
  uid_fetch_uid_list lowest = do
    uids ← call (λ n. env.uid_list n lowest)
    succeed (select (leb lowest) uids)

  abbrev pub since : Option String → List ℕ → Syncing (List ℕ)
  since none uids = succeed uids
  since (some date) uids = do
    found ← call (λ n. env.search_since n date)
    succeed (select (λ uid. any (λ u. u == uid) found) uids)

  -- The limits of the first synchronisation.
  unfoldable pub uids_to_fetch : ℕ → List ℕ → Syncing (List ℕ)
  uids_to_fetch last_seen all_uids =
      if last_seen == 0
      then (do
        uids ← since account.initial_sync_start_date all_uids
        succeed (drop (skipped account.initial_sync_max_messages uids) uids))
      else succeed all_uids

  abbrev pub sync_found : ℕ → ℕ → List ℕ → Syncing ℕ
  sync_found uid_validity last_seen [] = do checkpoint uid_validity last_seen; succeed 0
  sync_found uid_validity last_seen (u ∷ us) = do
    uids ← uids_to_fetch last_seen (u ∷ us)
    sync_chunks uid_validity (uid_chunks (length uids) fetch_batch_size uids) last_seen 0

  unfoldable pub do_incremental_sync : ℕ → Syncing ℕ
  do_incremental_sync uid_validity = do
    stored ← in_db (λ now db. (get_mailbox_state account.id mailbox db, db))
    uids ← uid_fetch_uid_list ((resume_from uid_validity stored + 1) % 2 ^ 32)
    sync_found uid_validity (resume_from uid_validity stored) uids
