-- ===== src/Lib.antt =====
-- A verification library of mailmux, a daemon that copies mails from IMAP into PostgreSQL and
-- runs processors on them.
--
-- The program. A sync task stores each new mail together with an event; a scheduler dispatches an
-- event once to the processors that are configured for it, as rows of a job queue, and executes
-- the jobs with a timeout and retries; an operator can replay a job, and hand stored mails to a
-- processor in a backfill; a cleanup task deletes old events. The tasks share nothing but the
-- tables. mailtx is a program that a processor starts for a mail: it reads a bank transaction
-- from it and posts it, where the two legs of a transfer, which arrive as two mails, wait for one
-- another in a store of its own. mailindex keeps a search index of the mails.
--
-- The files.
-- - Config: ProcessorConfig and its filters of events and sources (mailmux/src/config.rs).
-- - Db: the rows, and the tables as one record (mailmux/src/db/, mailmux/migrations/). Each query
--   is a function of the tables of the name it has in the source: Db/Jobs and Db/Queue
--   (db/jobs.rs), Db/Events (db/events.rs), Db/Emails (db/emails.rs), Db/Housekeeping
--   (housekeeping.rs). Db/Steps names the queries that write, and executes histories of them;
--   Db/Invariant, Db/Constraints and Db/Integrity are about constraints of the tables (the keys of
--   jobs, events and emails and the event of a job, but neither the key of mailbox_states nor the
--   email of an event),
--   Db/Dispatch about register_event_dispatch, Db/View and Db/Refinement about the queue as a map
--   from ids to jobs; Db/Exclusion is a step relation for all tasks that execute jobs, with one
--   transaction a step.
-- - Processor: what a processor answers (mailmux/src/processor/mod.rs), with Processor/Registry
--   (registry.rs) and Processor/Scheduler (scheduler.rs: execute_job, handle_failure,
--   process_events, retry_sweep). The handlers are written with do blocks over Processor/Effects.
-- - Replay: replay_event of mailmux/src/main.rs, over the same effects as the scheduler.
-- - Backfill: the loop over pages, chunks and attempts of mailmux/src/backfill.rs and the checks
--   of mailmux/src/cli.rs; Backfill/Command is the command around it.
-- - Imap (mailmux/src/imap/): Imap/Sync is do_incremental_sync of sync.rs with its checkpoints,
--   on the tables of Db; Imap/Backoff and Imap/Supervisor are the delay between two connections
--   and the circuit breaker of mod.rs.
-- - Mailtx: the data of mailtx/src/ (config.rs, endpoint/mod.rs). Mailtx/Transfer and
--   Mailtx/Store are the rules and the pending store of transfer.rs, Mailtx/Sender is
--   sender_allowed of config.rs, Mailtx/Matcher is matcher.rs, Mailtx/Canonical is
--   canonical_from_llm of endpoint/mod.rs and external_id of input.rs, and Mailtx/Books and
--   Mailtx/Run are `run` of main.rs.
-- - Mailindex/Key: the key of a document in the search index of mailindex/src/index/mod.rs.
-- - Base: names shared by all, and lemmas on lists, tables and numbers. Tests: concrete inputs.
--
-- How the code is read.
-- - A transaction is one step: PostgreSQL runs it as a whole, and a query that fails changes
--   nothing. Under READ COMMITTED another task may write between the statements of a transaction;
--   for the cleanup, which has three, Db/Steps has its two deletes as steps too, with any ids.
--   `SELECT … FOR UPDATE` holds the row until the end of its transaction. An UPDATE
--   changes every row that its WHERE clause names, and counts them.
-- - A key of type BIGSERIAL is the next value of a sequence, which an INSERT uses up also when ON
--   CONFLICT drops the row. Keys are natural numbers without a bound; the column `attempts` has
--   the bound of an INT, and a query that would pass it fails. The serial key of mailbox_states,
--   which nothing reads, is left out.
-- - A timestamp is a number of seconds, a JSON value is its text, the text column `status` is a
--   data type of the five words that the code writes. Log lines are left out; the counters of
--   runs and the metrics of the processors are kept as lists.
-- - Code that is not in the repository is an argument: in Processor/Effects the record Env has
--   the clock, the queries that the database refuses, what other tasks do to the tables between
--   two queries, what the processors answer and what serde_json gives; in Backfill the record
--   BackfillEnv has the answer to each attempt at an email, and `tables` the tables at each
--   query.
-- - In mailtx an amount, an f64, is its text, and `units` and `of_units` of the record Outside
--   are the conversions to and from cents; a text that the code takes apart is the list of its
--   code points. What the regular expressions capture, what the language model extracts, the
--   parser of dates, and each answer of SQLite and of the endpoint are fields of Outside too. The
--   list `posted` has the transactions that the endpoint acknowledged.
-- - In Imap/Sync the record Surroundings has the server's answers, the parser of messages, the
--   message store, the token that cancels, and what the database refuses and the other tasks
--   write. A UID is a number without a bound; only `last_seen_uid as u32` and the addition to it
--   wrap. What is asked of the server is the record Serves of
--   Imap/Sync/Coverage: among others that it lists its messages in the ascending order of their UIDs,
--   which IMAP leaves free and uid_fetch_uid_list (mailmux/src/imap/connection.rs) does not
--   establish. Tests/Mailroom has a run with another order, in which a message is lost.
-- - The casts `delay_secs as i64` of handle_failure and `remaining as i64` of run_backfill, and the
--   bound of a chrono Duration, are left out: the numbers are taken to be below 2 ^ 63, and a delay
--   below that in milliseconds.
-- - Loops are structural, but for the pages of a backfill, which run on fuel: the number of
--   selected emails is enough, since a page that is not empty lowers the remainder. The chunks of
--   a page, and the batches of a synchronisation, have the length of their list as fuel, since a
--   chunk takes one entry at least. A number in decimal has its value plus one as fuel.
--
-- Not modelled: the network (the IMAP protocol, HTTP, NOTIFY), files, metrics exporters,
-- configuration parsing, the event loop and the timers, which only call the operations above; dry
-- runs of a processor; the clients of mailtx for the language model and for Firefly; the storage,
-- the worker and the interfaces of mailindex.
pub mod Backfill
pub mod Base
pub mod Config
pub mod Db
pub mod Imap
pub mod Mailindex
pub mod Mailtx
pub mod Processor
pub mod Replay
pub mod Tests
