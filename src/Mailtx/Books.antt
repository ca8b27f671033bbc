-- ===== src/Mailtx/Books.antt =====
-- What a run of mailtx works on (mailtx/src/main.rs): the pending store, which may refuse a statement,
-- the endpoint, and the metrics.
use mailmux.Base.{
  Bool, Eff, List, Option, Result, String, [], err, false, ok, some, suc, true, ℕ, ◌++◌, ◌∷◌,
}
use mailmux.Mailtx.{Amount, CanonicalTransaction, MailtxConfig, TransactionData}
use mailmux.Mailtx.Canonical.{Dates}
use mailmux.Mailtx.Matcher.{Captures}
use mailmux.Mailtx.Store.{PendingStore}

-- `Metrics` of mailtx/src/metrics.rs.
pub record Metrics : Type 0 where
  pub result : Option String
  pub llm_result : Option String
  pub firefly_requests : List (String × String)
  pub account_match_method : Option String
  pub transfers_stored : ℕ
  pub transfers_coalesced : ℕ
  pub transfers_expired : ℕ
  pub firefly_transaction_id : Option String

-- What is outside of the program. `tick` counts the calls, so that each may answer otherwise.
pub record Outside : Type 0 where
  pub clock : ℕ → ℕ  -- `Utc::now()`
  pub sql_fails : ℕ → Bool  -- SQLite refuses the statement
  pub post : ℕ → CanonicalTransaction → Result (Option String)  -- the endpoint's receipt
  pub categories : ℕ → Result (List String)
  pub extract : ℕ → String → String → List String → Result TransactionData
  pub extract_body : String → Result String
  pub llm_client : Result (Unit {0})  -- `LlmClient::from_config`
  pub captures : Captures
  pub dates : Dates
  pub lowercase : List ℕ → List ℕ
  pub units : Amount → ℕ  -- `(amount.abs() * 100.0).round() as i64`
  pub of_units : ℕ → Amount  -- `amount_units as f64 / 100.0`

-- The store, the transactions that the endpoint acknowledged, and the metrics.
pub record Books : Type 0 where
  pub store : PendingStore
  pub posted : List CanonicalTransaction
  pub tick : ℕ
  pub metrics : Metrics

abbrev pub Bookkeeping : Type 0 → Type 0
Bookkeeping A = Eff Books A

abbrev pub measure : (Metrics → Metrics) → Bookkeeping (Unit {0})
measure f w = (ok tt, record w { metrics = f w.metrics })

abbrev pub count_request : String → String → Bookkeeping (Unit {0})
count_request operation result =
    measure (λ m. record m { firefly_requests = m.firefly_requests ++ ((operation, result) ∷ []) })

abbrev pub set_result : String → Bookkeeping (Unit {0})
set_result result = measure (λ m. record m { result = some result })

-- `match` on a result, whose error does not end the run.
abbrev pub caught : {A : Type 0} → Result A × Books → Result (Result A) × Books
caught (r, w) = (ok r, w)

abbrev pub attempt : {A : Type 0} → Bookkeeping A → Bookkeeping (Result A)
attempt step w = caught (step w)

module _ (env : Outside) (config : MailtxConfig) where
  -- One statement of the store.
  abbrev pub run_statement : {A : Type 0} → Books → Bool → A × PendingStore → Result A × Books
  run_statement w true (a, s) = (err "sqlite error", record w { tick = suc w.tick })
  run_statement w false (a, s) = (ok a, record w { store = s; tick = suc w.tick })

  unfoldable pub statement : {A : Type 0} → (ℕ → PendingStore → A × PendingStore) → Bookkeeping A
  statement f w = run_statement w (env.sql_fails w.tick) (f (env.clock w.tick) w.store)

  abbrev pub acknowledge :
      CanonicalTransaction → Books → Result (Option String) → Result (Option String) × Books
  acknowledge tx w (ok id) = (ok id, record w { posted = w.posted ++ (tx ∷ []); tick = suc w.tick })
  acknowledge tx w (err e) = (err e, record w { tick = suc w.tick })

  unfoldable pub post_transaction : CanonicalTransaction → Bookkeeping (Option String)
  post_transaction tx w = acknowledge tx w (env.post w.tick tx)
