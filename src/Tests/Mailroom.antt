-- ===== src/Tests/Mailroom.antt =====
-- A synchronisation of a mailbox of three messages, the first of which is known; the delays and the
-- circuit breaker of its watcher.
use mathlib.Core.Option
use mailmux.Base.{
  List, Result, [], any, arith, false, leb, length, map, max, min, nat_eq, none, ok, option_eq,
  refl, select, some, string_eq, ℕ, ◌&&◌, ◌*◌, ◌++◌, ◌+◌, ◌/◌, ◌<◌, ◌==◌, ◌∷◌, ◌≡◌, ◌≤◌,
}
use mailmux.Db.{EmailRecord, MailboxState}
use mailmux.Db.Emails.{get_mailbox_state, upsert_mailbox_state}
use mailmux.Db.Events.{email_row, insert_email_with_event, is_message}
use mailmux.Imap.Backoff.{full_delay, full_delay-suc, retry_delay, retry_delay-within}
use mailmux.Imap.Supervisor.{
  Judged, in_window, watcher_failed, watcher_failed-Judged, watcher_failures, watcher_failures-<,
}
use mailmux.Imap.Sync.{
  AccountConfig, FetchedMessage, Mailroom, Surroundings, bare_message, checkpoint,
  do_incremental_sync, in_db, ingest_batch, ingest_message, new_email, resume_from, sync_chunks,
  uid_chunks, uids_to_fetch,
}
use mailmux.Tests.Samples.{sample_db}

abbrev inbox : List ℕ
inbox = 4 ∷ 7 ∷ 9 ∷ []

abbrev message : ℕ → FetchedMessage
message uid = record { uid = uid; flags = []; size = none; raw_bytes = [] }

abbrev mail_account : AccountConfig
mail_account = record {
  id = "work";
  initial_sync_start_date = none;
  initial_sync_max_messages = none;
}

-- The server and the tables answer, and nobody else writes.
abbrev harbour : Surroundings
harbour = record {
  down = λ n. false;
  clock = λ n. 100 + n;
  others = λ n db. db;
  is_cancelled = λ n. false;
  uid_list = λ n lowest. ok (select (leb lowest) inbox);
  search_since = λ n date. ok [];
  fetch_range =
      λ n first last. ok (map message (select (λ uid. leb first uid && leb uid last) inbox));
  parse = λ bytes. none;
  lowercase = λ s. s;
  save = λ n account mailbox uid. ok "path";
  payload = λ uid subject sender. "{}";
}

abbrev known_message : EmailRecord
known_message =
    email_row 50 1 (new_email harbour mail_account "INBOX" (message 4) bare_message "path")

abbrev mailroom : Mailroom
mailroom = record {
  db = record sample_db {
    emails = known_message ∷ [];
    next_email = 2;
    mailbox_states =
        record {
          account_id = "work";
          mailbox_name = "INBOX";
          uid_validity = 1;
          last_seen_uid = 4;
          last_sync_at = none;
        }
        ∷ [];
  };
  tick = 0;
  ingested = 0;
}

-- Both unknown messages are ingested, and the checkpoint is the last UID.
synchronised :
    (let r : Result ℕ × Mailroom = do_incremental_sync harbour mail_account "INBOX" 1 mailroom in
      (r.0 ≡ ok 2)
      × (Option.map
            (λ (s : MailboxState). s.last_seen_uid)
            (get_mailbox_state "work" "INBOX" r.1.db)
          ≡ some 9))
unfolding do_incremental_sync in_db get_mailbox_state resume_from uids_to_fetch uid_chunks
    sync_chunks ingest_batch ingest_message insert_email_with_event checkpoint upsert_mailbox_state
    nat_eq string_eq
synchronised = (refl, refl)

-- The insert of the second message is refused: the checkpoint passes it all the same, so that no later
-- synchronisation fetches it.
passed_over :
    (let r : Result ℕ × Mailroom =
        do_incremental_sync
          (record harbour { down = λ n. n == 4 })
          mail_account
          "INBOX"
          1
          mailroom in
      (r.0 ≡ ok 1)
      × ((Option.map
              (λ (s : MailboxState). s.last_seen_uid)
              (get_mailbox_state "work" "INBOX" r.1.db)
            ≡ some 9)
          × (any (is_message "work" "INBOX" 7) r.1.db.emails ≡ false)))
unfolding do_incremental_sync in_db get_mailbox_state resume_from uids_to_fetch uid_chunks
    sync_chunks ingest_batch ingest_message insert_email_with_event checkpoint upsert_mailbox_state
    nat_eq string_eq
passed_over = (refl, (refl, refl))

-- A server with the messages 5, 7 and 9 that lists them in another order. A range has all that lies
-- between its ends, in either order.
abbrev unordered : Surroundings
unordered = record harbour {
  uid_list = λ n lowest. ok (select (leb lowest) (9 ∷ 5 ∷ 7 ∷ []));
  fetch_range = λ n first last. ok (
      map message
        (select (λ uid. leb (min first last) uid && leb uid (max first last)) (5 ∷ 7 ∷ 9 ∷ [])));
}

-- The batch is fetched as 9:7: message 5 is not stored, and the checkpoint passes it.
unordered_loss :
    (let r : Result ℕ × Mailroom = do_incremental_sync unordered mail_account "INBOX" 1 mailroom in
      (r.0 ≡ ok 2)
      × ((Option.map
              (λ (s : MailboxState). s.last_seen_uid)
              (get_mailbox_state "work" "INBOX" r.1.db)
            ≡ some 9)
          × (any (is_message "work" "INBOX" 5) r.1.db.emails ≡ false)))
unfolding do_incremental_sync in_db get_mailbox_state resume_from uids_to_fetch uid_chunks
    sync_chunks ingest_batch ingest_message insert_email_with_event checkpoint upsert_mailbox_state
    nat_eq string_eq
unordered_loss = (refl, (refl, refl))

retry_delay-within_example :
    (full_delay 3 1000 300000 / 2 ≤ retry_delay 123456789 3 1000 300000)
    × ((retry_delay 123456789 3 1000 300000 ≤ full_delay 3 1000 300000)
        × (full_delay 3 1000 300000 ≤ 300000))
retry_delay-within_example = retry_delay-within 123456789 3 1000 300000

full_delay-suc_example : full_delay 4 1000 300000 ≡ min (2 * full_delay 3 1000 300000) 300000
full_delay-suc_example = full_delay-suc 3 1000 300000 (omega arith) (omega arith)

watcher_failed-Judged_example :
    Judged
      (select (in_window 400) ((10 ∷ 90 ∷ 350 ∷ []) ++ (400 ∷ [])))
      (watcher_failed 400 (10 ∷ 90 ∷ 350 ∷ []))
watcher_failed-Judged_example =
    watcher_failed-Judged 400 (10 ∷ 90 ∷ 350 ∷ [])
      ((refl, (refl, (refl, tt))), ((refl, (refl, tt)), ((refl, tt), (tt, tt))))

watcher_failures-<_example : length (watcher_failures (10 ∷ 20 ∷ 30 ∷ []) []) < 10
watcher_failures-<_example = watcher_failures-< (10 ∷ 20 ∷ 30 ∷ []) [] (omega arith)
