-- ===== src/Imap/Sync/Coverage.antt =====
-- Which messages lie below the checkpoint of a mailbox (`do_incremental_sync` of
-- mailmux/src/imap/sync.rs), when the server holds the messages `uids`.
use mailmux.Base.{
  Bool-cases, Has, List, Result, SortedBy, String, arith, err, go_on, inl, inr, leb, max, ok, some,
  subst, sym, ℕ, ◌+◌, ◌<◌, ◌∙◌, ◌∷◌, ◌≡◌, ◌≤◌, ◌⊎◌,
}
use mailmux.Db.{MailboxState}
use mailmux.Db.Emails.{get_mailbox_state, upsert_mailbox_state}
use mailmux.Imap.Sync.{
  AccountConfig, Batch, FetchedMessage, Mailroom, Surroundings, Syncing, checkpoint, close_batch,
  finished, in_db, last_of, run_query, stopped,
}
use mailmux.Imap.Sync.Ingestion.{Batched, Keeps, There, Undisturbed}
use mailmux.Imap.Sync.Mailbox.{Stored-upsert, get-upsert}

module _ (env : Surroundings) (account : AccountConfig) (mailbox : String) (uids : List ℕ) where
  -- A call may fail. If it answers, the list has every message from its start on, in the ascending
  -- order of their UIDs, which IMAP leaves free and the code neither asks for nor establishes; and a
  -- fetch of a range has the messages of the range and none above it.
  pub record Serves : Type 0 where
    pub positive : (uid : ℕ) → Has uid uids → 0 < uid
    pub ascending : (n lowest : ℕ) (us : List ℕ) → env.uid_list n lowest ≡ ok us → SortedBy leb us
    pub lists :
        (n lowest uid : ℕ) (us : List ℕ)
        → env.uid_list n lowest ≡ ok us
        → Has uid uids
        → lowest ≤ uid
        → Has uid us
    pub delivers :
        (n first last uid : ℕ) (ms : List FetchedMessage)
        → env.fetch_range n first last ≡ ok ms
        → Has uid uids
        → first ≤ uid
        → uid ≤ last
        → (m : FetchedMessage) × (Has m ms × (m.uid ≡ uid))
    pub within :
        (n first last : ℕ) (ms : List FetchedMessage) (m : FetchedMessage)
        → env.fetch_range n first last ≡ ok ms
        → Has m ms
        → m.uid ≤ last

  -- Every message of the server up to a UID has its row.
  abbrev pub StoredUpTo : ℕ → Mailroom → Type 0
  StoredUpTo top w = (uid : ℕ) → Has uid uids → uid ≤ top → There env account mailbox uid w

  -- The checkpoint, under the server's UIDVALIDITY, lies above messages that have their rows only.
  abbrev pub Covered : ℕ → Mailroom → Type 0
  Covered uid_validity w =
      (state : MailboxState)
      → get_mailbox_state account.id mailbox w.db ≡ some state
      → state.uid_validity ≡ uid_validity
      → StoredUpTo state.last_seen_uid w

  StoredUpTo-Keeps :
      (top : ℕ) (w w' : Mailroom)
      → Keeps env account mailbox w w'
      → StoredUpTo top w
      → StoredUpTo top w'
  StoredUpTo-Keeps top w w' k h = λ uid m l. k.stays uid (h uid m l)

  pub Covered-Keeps :
      (uid_validity : ℕ) (w w' : Mailroom)
      → Keeps env account mailbox w w'
      → Covered uid_validity w
      → Covered uid_validity w'
  Covered-Keeps uid_validity w w' k h =
      λ state e v uid m l. k.stays uid (h state (sym k.state ∙ e) v uid m l)

  module _ (undisturbed : Undisturbed env account mailbox) (serves : Serves)
      (uid_validity : ℕ) where
    pub checkpoint-stays :
        (top uid : ℕ) (w : Mailroom)
        → There env account mailbox uid w
        → There env account mailbox uid (checkpoint env account mailbox uid_validity top w).1
    unfolding checkpoint in_db
    checkpoint-stays top uid w h = rw (undisturbed.answers w.tick) (
        Stored-upsert account.id mailbox (env.clock w.tick) uid_validity top uid _
          (undisturbed.others_stay w.tick uid w.db h))

    checkpoint_seen :
        (top : ℕ) (w : Mailroom) (state : MailboxState)
        → get_mailbox_state account.id mailbox
            (checkpoint env account mailbox uid_validity top w).1.db
          ≡ some state
        → state.last_seen_uid ≡ top
    unfolding checkpoint in_db
    checkpoint_seen top w state e =
        (get-upsert account.id mailbox (env.clock w.tick) uid_validity top (env.others w.tick w.db)
          state
          (subst
            (λ b.
              get_mailbox_state account.id mailbox
                (run_query env account mailbox (record w { db = env.others w.tick w.db }) b
                  (λ db. (
                    tt,
                    upsert_mailbox_state (env.clock w.tick) account.id mailbox uid_validity top db,
                  ))).1.db
              ≡ some state)
            (undisturbed.answers w.tick) e)).1

    pub checkpoint-Covered :
        (top : ℕ) (w : Mailroom)
        → StoredUpTo top w
        → Covered uid_validity (checkpoint env account mailbox uid_validity top w).1
    checkpoint-Covered top w h state e v uid m l =
        checkpoint-stays top uid w
          (h uid m (subst (λ (n : ℕ). uid ≤ n) (checkpoint_seen top w state e) l))

    -- The rest of a synchronisation, after a step that may have failed.
    pub then-Covered :
        {A : Type 0} (f : A → Syncing ℕ) (x : Result A × Mailroom)
        → Covered uid_validity x.1
        → ((a : A) → Covered uid_validity (f a x.1).1)
        → Covered uid_validity (go_on f x).1
    then-Covered f (ok a, w) h g = g a
    then-Covered f (err e, w) h g = h

    module _ (x : ℕ) (ys zs : List ℕ) (least : (u : ℕ) → Has u (x ∷ ys) ⊎ Has u zs → x ≤ u)
        (greatest : (u : ℕ) → Has u (x ∷ ys) → u ≤ last_of x ys) where
      -- A batch that was not stopped brings the messages up to its greatest UID, and what is left of
      -- the list lies above it.
      pub batch_advances :
          (n top top' count : ℕ) (ms : List FetchedMessage) (w w' : Mailroom)
          → env.fetch_range n x (last_of x ys) ≡ ok ms
          → ((u : ℕ) → Has u uids → (u ≤ top) ⊎ (Has u (x ∷ ys) ⊎ Has u zs))
          → StoredUpTo top w
          → Batched env account mailbox undisturbed ms top w (ok (finished top' count), w')
          → StoredUpTo top' w' × ((u : ℕ) → Has u uids → (u ≤ top') ⊎ Has u zs)
      batch_advances n top top' count ms w w' f c s b = (stored, left)
        where
          arrived :
              (u : ℕ)
              → Has u uids
              → x ≤ u
              → u ≤ last_of x ys
              → (u ≤ top') × There env account mailbox u w'
          arrived u m p q =
              let d : (msg : FetchedMessage) × (Has msg ms × (msg.uid ≡ u)) =
                serves.delivers n x (last_of x ys) u ms f m p q in
              subst (λ (k : ℕ). (k ≤ top') × There env account mailbox k w') d.1.1
                (b.complete.1.0 d.0 d.1.0)

          stored : StoredUpTo top' w'
          stored u m l = elim (c u m) [
            | inl k ↦ b.keeps.stays u (s u m k)
            | inr k ↦ elim (Bool-cases (leb u top)) [
              | inl e ↦ b.keeps.stays u (s u m (ground arith))
              | inr e ↦
                  (arrived u m (least u k) (
                    let t : top' ≤ max top (last_of x ys) =
                      b.complete.1.1 (max top (last_of x ys)) (omega arith) (λ msg h.
                        let g : msg.uid ≤ last_of x ys =
                          serves.within n x (last_of x ys) ms msg f h in
                        omega arith) in
                    ground arith)).1
            ]
          ]

          left : (u : ℕ) → Has u uids → (u ≤ top') ⊎ Has u zs
          left u m = elim (c u m) [
            | inl k ↦ inl (let p : top ≤ top' = b.complete.0 in omega arith)
            | inr (inl k) ↦ inl (arrived u m (least u (inl k)) (greatest u k)).0
            | inr (inr k) ↦ inr k
          ]

      module _ (rest : ℕ → ℕ → Syncing ℕ)
          (goes_on : (top total : ℕ) (w : Mailroom)
            → ((u : ℕ) → Has u uids → (u ≤ top) ⊎ Has u zs)
            → StoredUpTo top w
            → Covered uid_validity w
            → Covered uid_validity (rest top total w).1) where
        pub close_batch-Covered :
            (n top total : ℕ) (ms : List FetchedMessage) (w : Mailroom)
            (r : Result Batch × Mailroom)
            → env.fetch_range n x (last_of x ys) ≡ ok ms
            → ((u : ℕ) → Has u uids → (u ≤ top) ⊎ (Has u (x ∷ ys) ⊎ Has u zs))
            → StoredUpTo top w
            → Covered uid_validity w
            → Batched env account mailbox undisturbed ms top w r
            → Covered uid_validity
                (go_on (close_batch env account mailbox uid_validity total rest) r).1
        close_batch-Covered n top total ms w (err e, w') f c s v b =
            Covered-Keeps uid_validity w w' b.keeps v
        close_batch-Covered n top total ms w (ok stopped, w') f c s v b =
            Covered-Keeps uid_validity w w' b.keeps v
        close_batch-Covered n top total ms w (ok (finished top' count), w') f c s v b =
            let a : StoredUpTo top' w' × ((u : ℕ) → Has u uids → (u ≤ top') ⊎ Has u zs) =
              batch_advances n top top' count ms w w' f c s b in
            then-Covered (λ u. rest top' (total + count))
              (checkpoint env account mailbox uid_validity top' w') (checkpoint-Covered top' w' a.0)
              (λ u.
                goes_on top' (total + count) (checkpoint env account mailbox uid_validity top' w').1
                  a.1 (λ uid m l. checkpoint-stays top' uid w' (a.0 uid m l))
                  (checkpoint-Covered top' w' a.0))
