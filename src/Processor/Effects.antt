-- ===== src/Processor/Effects.antt =====
-- What the scheduler's handlers work on: the database, which other tasks change between two queries
-- and which may refuse any query, the processors, and the metrics.
use mailmux.Base.{Bool, List, Option, Result, String, err, if◌then◌else◌, ok, suc, ℕ, ◌∷◌}
use mailmux.Db.{Db, EmailRecord, Event, Json}
use mailmux.Processor.{Outcome, ProcessorMetric, ProcessorOutput}
use mailmux.Processor.Registry.{Processor}

pub record World : Type 0 where
  pub db : Db
  pub tick : ℕ  -- queries and processor runs so far
  pub runs : List (String × String)  -- `metrics::inc_processor_runs`
  pub emitted : List (String × List ProcessorMetric)  -- `metrics::record_processor_metrics`

-- What is outside of the program: the answers of the clock, of the database and of the processors.
pub record Env : Type 0 where
  pub down : ℕ → Bool  -- the query is refused
  pub clock : ℕ → ℕ  -- `now()` of the database, and `Utc::now()`
  pub others : ℕ → Db → Db  -- what the other tasks do to the tables before the query
  pub process : ℕ → Processor → Event → Option EmailRecord → ℕ → Outcome
  pub to_value : ProcessorOutput → Option Json  -- `serde_json::to_value`

-- A handler, which answers and goes on in every case.
abbrev pub M : Type 0 → Type 0
M A = World → A × World

infixl 5 ◌>>=◌ ◌>>◌
abbrev pub ◌>>=◌ : {A B : Type 0} → M A → (A → M B) → M B
◌>>=◌ first rest world = let (answer, world') = first world in rest answer world'

abbrev pub ◌>>◌ : {A B : Type 0} → M A → M B → M B
◌>>◌ first rest world = rest ((first world).1)

abbrev pub return : {A : Type 0} → A → M A
return a w = (a, w)

abbrev pub inc_processor_runs : String → String → M (Unit {0})
inc_processor_runs name status w = (tt, record w { runs = (name, status) ∷ w.runs })

abbrev pub record_processor_metrics : String → List ProcessorMetric → M (Unit {0})
record_processor_metrics name metrics w = (tt, record w { emitted = (name, metrics) ∷ w.emitted })

abbrev pub settle_query : {A : Type 0} → World → Db → Result (A × Db) → Result A × World
settle_query w db (ok (a, db')) = (ok a, record w { db = db'; tick = suc w.tick })
settle_query w db (err e) = (err e, record w { db = db; tick = suc w.tick })

module _ (env : Env) where
  -- One query, in a transaction of its own: it is refused, or it runs on the tables as the other
  -- tasks left them. A query that fails changes nothing.
  unfoldable pub query : {A : Type 0} → (ℕ → Db → Result (A × Db)) → M (Result A)
  query f w =
      let db = env.others w.tick w.db in
      settle_query w db (if env.down w.tick then err "database error" else f (env.clock w.tick) db)

  -- A query that only reads.
  abbrev pub fetch : {A : Type 0} → (ℕ → Db → A) → M (Result A)
  fetch f = query (λ now db. ok (f now db, db))

  unfoldable pub run_processor : Processor → Event → Option EmailRecord → ℕ → M Outcome
  run_processor p event email timeout w =
      (env.process w.tick p event email timeout, record w { tick = suc w.tick })

  unfoldable pub utc_now : M ℕ
  utc_now w = (env.clock w.tick, w)
