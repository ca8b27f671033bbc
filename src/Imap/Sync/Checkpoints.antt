-- ===== src/Imap/Sync/Checkpoints.antt =====
-- The checkpoints of a whole synchronisation (`do_incremental_sync` of mailmux/src/imap/sync.rs),
-- for an account whose first synchronisation has no limits.
use native.Mathlib.Nat.{mod-le}
use mailmux.Base.{
  ==_iff, Bool, Bool-cases, Has, Has-select, List, Option, SortedBy, String, arith, false,
  if◌then◌else◌, inl, inr, leb, nat_eq, none, not, ok, option_eq, refl, select, some, string_eq,
  suc, succeed, true, ℕ, ◌%◌, ◌+◌, ◌<◌, ◌==◌, ◌^◌, ◌≡◌, ◌≤◌, ◌⊎◌,
}
use mailmux.Db.{MailboxState}
use mailmux.Db.Emails.{get_mailbox_state}
use mailmux.Imap.Sync.{AccountConfig, Mailroom, Surroundings, Syncing, resume_from, uids_to_fetch}
use mailmux.Imap.Sync.Batches.{SortedBy-select}
use mailmux.Imap.Sync.Coverage.{Covered, Covered-Keeps, Serves, StoredUpTo}
use mailmux.Imap.Sync.Ingestion.{Undisturbed}

module _ (env : Surroundings) (account : AccountConfig) (mailbox : String) (uids : List ℕ)
    (undisturbed : Undisturbed env account mailbox) (serves : Serves env account mailbox uids)
    (uid_validity : ℕ) where
  abbrev Sound : Mailroom → Type 0
  Sound = Covered env account mailbox uids uid_validity

  -- What the stored state says has its rows.
  pub resume_from-StoredUpTo :
      (w : Mailroom)
      → Sound w
      → StoredUpTo env account mailbox uids
          (resume_from uid_validity (get_mailbox_state account.id mailbox w.db))
          w
  unfolding resume_from
  resume_from-StoredUpTo w v = go (get_mailbox_state account.id mailbox w.db) refl
    where
      known :
          (state : MailboxState) (b : Bool)
          → get_mailbox_state account.id mailbox w.db ≡ some state
          → (state.uid_validity == uid_validity) ≡ b
          → StoredUpTo env account mailbox uids
              (if not b then 0 else state.last_seen_uid % 2 ^ 32)
              w
      known state true e p u m l =
          v state e ((==_iff state.uid_validity uid_validity).0 p) u m
            (omega (arith, mod-le state.last_seen_uid (2 ^ 32)))
      known state false e p u m l = absurd (let q : 0 < u = serves.positive u m in omega arith)

      go :
          (o : Option MailboxState)
          → get_mailbox_state account.id mailbox w.db ≡ o
          → StoredUpTo env account mailbox uids (resume_from uid_validity o) w
      go none e = λ u m l. absurd (let q : 0 < u = serves.positive u m in omega arith)
      go (some state) e = known state (state.uid_validity == uid_validity) e refl

  module _ (no_date : account.initial_sync_start_date ≡ none)
      (no_limit : account.initial_sync_max_messages ≡ none) where
    pub uids_to_fetch-all :
        (last_seen : ℕ) (us : List ℕ) (w : Mailroom)
        → uids_to_fetch env account mailbox last_seen us w ≡ (ok us, w)
    unfolding uids_to_fetch
    uids_to_fetch-all last_seen us w = rw no_date (rw no_limit (go (last_seen == 0)))
      where
        go :
            (b : Bool)
            → (let r : Syncing (List ℕ) = if b then succeed us else succeed us in r w) ≡ (ok us, w)
        go true = refl
        go false = refl

    -- What the server lists from the next UID on, with what lies below it.
    pub listed_above :
        (last_seen n u : ℕ) (us : List ℕ)
        → env.uid_list n ((last_seen + 1) % 2 ^ 32) ≡ ok us
        → Has u uids
        → (u ≤ last_seen) ⊎ Has u (select (leb ((last_seen + 1) % 2 ^ 32)) us)
    listed_above last_seen n u us h m = elim (Bool-cases (leb u last_seen)) [
      | inl p ↦ inl (ground arith)
      | inr p ↦
          let q : (last_seen + 1) % 2 ^ 32 ≤ u = ground (arith, mod-le (last_seen + 1) (2 ^ 32)) in
          inr (
            Has-select _ u us (serves.lists n ((last_seen + 1) % 2 ^ 32) u us h m q) (ground arith))
    ]

    pub listed-SortedBy :
        (last_seen n : ℕ) (us : List ℕ)
        → env.uid_list n ((last_seen + 1) % 2 ^ 32) ≡ ok us
        → SortedBy leb (select (leb ((last_seen + 1) % 2 ^ 32)) us)
    listed-SortedBy last_seen n us h =
        SortedBy-select (leb ((last_seen + 1) % 2 ^ 32)) us
          (serves.ascending n ((last_seen + 1) % 2 ^ 32) us h)

    -- The tables after the first two calls.
    abbrev pub listed : Mailroom → Mailroom
    listed w = record w { db = env.others w.tick w.db; tick = suc (suc w.tick) }

    pub listed-Covered : (w : Mailroom) → Sound w → Sound (listed w)
    listed-Covered w v =
        Covered-Keeps env account mailbox uids uid_validity w (listed w)
          (record {
            stays = λ uid h. undisturbed.others_stay w.tick uid w.db h;
            state = undisturbed.others_state w.tick w.db;
          })
          v

    abbrev pub last_seen_of : Mailroom → ℕ
    last_seen_of w = resume_from uid_validity (get_mailbox_state account.id mailbox (listed w).db)
