-- ===== src/Db/Housekeeping.antt =====
-- mailmux/src/housekeeping.rs: one pass of the cleanup, in its transaction.
use mailmux.Base.{
  Bool, List, [], any, false, ltb, map, nat_eq, none, not, option_eq, select, some, string_eq, true,
  ℕ, ◌&&◌, ◌*◌, ◌+◌, ◌==◌, ◌∷◌,
}
use mailmux.Db.{Db, EventRow}
use mailmux.Db.Jobs.{is_terminal}

abbrev pub is_dispatched : EventRow → Bool
is_dispatched e = elim e.dispatched_at [ none ↦ false | some t ↦ true ]

abbrev pub seconds_per_day : ℕ
seconds_per_day = 86400

-- e.created_at < now() - retention days AND e.dispatched_at IS NOT NULL AND NOT EXISTS (…)
unfoldable pub is_eligible : ℕ → ℕ → Db → EventRow → Bool
is_eligible now retention_days db e =
    ltb (e.event.created_at + retention_days * seconds_per_day) now
    && (is_dispatched e
        && not (any (λ j. j.event_id == e.event.id && not (is_terminal j.status)) db.jobs))

abbrev pub eligible_ids : ℕ → ℕ → Db → List ℕ
eligible_ids now retention_days db =
    map (λ e. e.event.id) (select (is_eligible now retention_days db) db.events)

abbrev pub mem_id : List ℕ → ℕ → Bool
mem_id ids id = any (λ i. id == i) ids

-- DELETE FROM processor_jobs WHERE event_id = ANY($1) AND status IN ('completed', 'abandoned')
abbrev pub delete_terminal_jobs : List ℕ → Db → Db
delete_terminal_jobs ids db = record db {
  jobs = select (λ j. not (mem_id ids j.event_id && is_terminal j.status)) db.jobs;
}

-- DELETE FROM events e WHERE e.id = ANY($1) AND NOT EXISTS (…)
abbrev pub delete_jobless_events : List ℕ → Db → Db
delete_jobless_events ids db = record db {
  events =
      select (λ e. not (mem_id ids e.event.id && not (any (λ j. j.event_id == e.event.id) db.jobs)))
        db.events;
}

abbrev pub delete_events : List ℕ → Db → Db
delete_events [] db = db
delete_events (id ∷ ids) db = delete_jobless_events (id ∷ ids) (delete_terminal_jobs (id ∷ ids) db)

-- With no eligible event the transaction is committed before the deletes.
unfoldable pub cleanup_old_events : ℕ → ℕ → Db → Db
unfolding is_eligible
cleanup_old_events now retention_days db = delete_events (eligible_ids now retention_days db) db
