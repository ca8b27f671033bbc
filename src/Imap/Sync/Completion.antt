-- ===== src/Imap/Sync/Completion.antt =====
-- A synchronisation in which nothing fails (`do_incremental_sync` of mailmux/src/imap/sync.rs).
use mailmux.Base.{Has, List, Result, String, err, false, ok, ℕ, ◌≡◌}
use mailmux.Imap.Sync.{
  AccountConfig, Batch, FetchedMessage, Mailroom, Surroundings, finished, stopped,
}
use mailmux.Imap.Sync.Ingestion.{There}

abbrev Succeeds {ℓ} : {A : Type ℓ} → Result A → Type 0
Succeeds (ok a) = Unit
Succeeds (err e) = ⊥

module _ (env : Surroundings) (account : AccountConfig) (mailbox : String) (uids : List ℕ) where
  -- The server and the message store answer, and nobody cancels.
  pub record Cooperates : Type 0 where
    pub lists_all : (n lowest : ℕ) → (us : List ℕ) × (env.uid_list n lowest ≡ ok us)
    pub fetches :
        (n first last : ℕ) → (ms : List FetchedMessage) × (env.fetch_range n first last ≡ ok ms)
    pub saves :
        (n : ℕ) (id name : String) (uid : ℕ) → (path : String) × (env.save n id name uid ≡ ok path)
    pub runs_on : (n : ℕ) → env.is_cancelled n ≡ false

  -- It ends well and every message of the server has its row.
  abbrev pub AllStored : Result ℕ × Mailroom → Type 0
  AllStored (err e, w) = ⊥
  AllStored (ok total, w) = (uid : ℕ) → Has uid uids → There env account mailbox uid w

  abbrev Finishes : Result Batch × Mailroom → Type 0
  Finishes (ok (finished top count), w) = Unit
  Finishes (ok stopped, w) = ⊥
  Finishes (err e, w) = ⊥
