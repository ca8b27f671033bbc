-- ===== src/Imap/Sync/Ingestion.antt =====
-- What the ingestion of messages does to the tables (`ingest_message` and a batch of
-- `do_incremental_sync` in mailmux/src/imap/sync.rs), with a database that answers.
use mailmux.Base.{
  Bool, Has, List, Option, Result, String, [], arith, err, false, go_on, if◌then◌else◌, inl, inr,
  max, none, ok, refl, some, subst, suc, sym, true, ℕ, ◌+◌, ◌∙◌, ◌∷◌, ◌≡◌, ◌≤◌,
}
use mailmux.Db.{Db, NewEmail, NewEvent}
use mailmux.Db.Emails.{get_mailbox_state}
use mailmux.Db.Events.{insert_email_with_event}
use mailmux.Imap.Sync.{
  AccountConfig, Batch, FetchedMessage, Mailroom, ParsedMessage, Surroundings, Syncing, finished,
  in_db, ingest_batch, ingest_message, new_email, new_event, or_bare, persist, persisted, stopped,
}
use mailmux.Imap.Sync.Mailbox.{Stored, Stored-insert, get-insert, insert-Stored}

module _ (env : Surroundings) (account : AccountConfig) (mailbox : String) where
  abbrev pub There : ℕ → Mailroom → Type 0
  There uid w = Stored account.id mailbox uid w.db

  -- Rows of messages stay, and the state of the mailbox is as it was.
  pub record Keeps (w w' : Mailroom) : Type 0 where
    pub stays : (uid : ℕ) → There uid w → There uid w'
    pub state :
        get_mailbox_state account.id mailbox w'.db ≡ get_mailbox_state account.id mailbox w.db

  pub Keeps-trans : {w w' w'' : Mailroom} → Keeps w w' → Keeps w' w'' → Keeps w w''
  Keeps-trans p q = record {
    stays = λ uid h. q.stays uid (p.stays uid h);
    state = q.state ∙ p.state;
  }

  -- The other tasks delete no message and leave the mailbox to its watcher; the database answers.
  pub record Undisturbed : Type 0 where
    pub others_stay :
        (n uid : ℕ) (db : Db)
        → Stored account.id mailbox uid db
        → Stored account.id mailbox uid (env.others n db)
    pub others_state :
        (n : ℕ) (db : Db)
        → get_mailbox_state account.id mailbox (env.others n db)
          ≡ get_mailbox_state account.id mailbox db
    pub answers : (n : ℕ) → env.down n ≡ false

  module _ (u : Undisturbed) where
    insert_step :
        (email : NewEmail) (event : NewEvent) (w : Mailroom)
        → Keeps w
            (in_db env account mailbox (λ now db. insert_email_with_event now email event db) w).1
    unfolding in_db
    insert_step email event w = rw (u.answers w.tick) (record {
      stays = λ uid h.
          Stored-insert account.id mailbox (env.clock w.tick) uid email event _
            (u.others_stay w.tick uid w.db h);
      state =
          get-insert account.id mailbox (env.clock w.tick) email event _
          ∙ u.others_state w.tick w.db;
    })

    insert-There :
        (m : FetchedMessage) (p : ParsedMessage) (path : String) (event : NewEvent) (w : Mailroom)
        → There m.uid
            (in_db env account mailbox
              (λ now db.
                insert_email_with_event now (new_email env account mailbox m p path) event db)
              w).1
    unfolding in_db
    insert-There m p path event w =
        rw (u.answers w.tick)
          (insert-Stored (env.clock w.tick) (new_email env account mailbox m p path) event _)

    persisted-Keeps :
        (r : Result (Option (ℕ × ℕ))) (w w' : Mailroom)
        → Keeps w w'
        → Keeps w (persisted env account mailbox r w').1
    persisted-Keeps (ok (some ids)) w w' k = record { stays = k.stays; state = k.state }
    persisted-Keeps (ok none) w w' k = k
    persisted-Keeps (err e) w w' k = k

    -- A message that was ingested is there.
    abbrev Arrived : ℕ → Result ℕ × Mailroom → Type 0
    Arrived uid (ok n, w) = There uid w
    Arrived uid (err e, w) = Unit

    persisted-Arrived :
        (r : Result (Option (ℕ × ℕ))) (uid : ℕ) (w : Mailroom)
        → There uid w
        → Arrived uid (persisted env account mailbox r w)
    persisted-Arrived (ok (some ids)) uid w h = h
    persisted-Arrived (ok none) uid w h = h
    persisted-Arrived (err e) uid w h = h

    module _ (m : FetchedMessage) where
      abbrev insert_of : String → Syncing (Option (ℕ × ℕ))
      insert_of path =
          let email : NewEmail =
            new_email env account mailbox m (or_bare (env.parse m.raw_bytes)) path in
          in_db env account mailbox
            (λ now db. insert_email_with_event now email (new_event env account mailbox m email) db)

      ingest_message-Keeps : (w : Mailroom) → Keeps w (ingest_message env account mailbox m w).1
      unfolding ingest_message
      ingest_message-Keeps w = go (env.save w.tick account.id mailbox m.uid)
        where
          go :
              (r : Result String)
              → Keeps w
                  (go_on
                    (λ path.
                      persist env account mailbox m
                        (new_email env account mailbox m (or_bare (env.parse m.raw_bytes)) path))
                    (r, record w { tick = suc w.tick })).1
          go (err e) = record { stays = λ uid h. h; state = refl }
          go (ok path) =
              let x : Result (Option (ℕ × ℕ)) × Mailroom =
                insert_of path (record w { tick = suc w.tick }) in
              persisted-Keeps x.0 w x.1 (
                let k = insert_step _ _ (record w { tick = suc w.tick }) in
                record { stays = k.stays; state = k.state })

      ingest_message-Arrived :
          (w : Mailroom) → Arrived m.uid (ingest_message env account mailbox m w)
      unfolding ingest_message
      ingest_message-Arrived w = go (env.save w.tick account.id mailbox m.uid)
        where
          go :
              (r : Result String)
              → Arrived m.uid (
                  go_on
                    (λ path.
                      persist env account mailbox m
                        (new_email env account mailbox m (or_bare (env.parse m.raw_bytes)) path))
                    (r, record w { tick = suc w.tick }))
          go (err e) = tt
          go (ok path) =
              let x : Result (Option (ℕ × ℕ)) × Mailroom =
                insert_of path (record w { tick = suc w.tick }) in
              persisted-Arrived x.0 m.uid x.1
                (insert-There m _ path _ (record w { tick = suc w.tick }))

    -- A batch that was not stopped: all its messages are there, and the greatest UID is one of theirs
    -- or the one from before.
    abbrev pub Complete : List FetchedMessage → ℕ → Result Batch × Mailroom → Type 0
    Complete ms top (err e, w) = Unit
    Complete ms top (ok stopped, w) = Unit
    Complete ms top (ok (finished top' count), w) =
        (top ≤ top')
        × (((m : FetchedMessage) → Has m ms → (m.uid ≤ top') × There m.uid w)
            × ((bound : ℕ)
                → top ≤ bound
                → ((m : FetchedMessage) → Has m ms → m.uid ≤ bound)
                → top' ≤ bound))

    pub record Batched (ms : List FetchedMessage) (top : ℕ) (w : Mailroom)
        (r : Result Batch × Mailroom) : Type 0 where
      pub keeps : Keeps w r.1
      pub complete : Complete ms top r

    Complete-∷ :
        (m : FetchedMessage) (ms : List FetchedMessage) (top : ℕ) (r : Result Batch × Mailroom)
        → There m.uid r.1
        → Complete ms (max m.uid top) r
        → Complete (m ∷ ms) top r
    Complete-∷ m ms top (err e, w) h c = tt
    Complete-∷ m ms top (ok stopped, w) h c = tt
    Complete-∷ m ms top (ok (finished top' count), w) h (p, (q, l)) = (
      omega arith,
      (
        each,
        λ bound a b.
            l bound (let c : m.uid ≤ bound = b m (inl refl) in omega arith) (λ m' g. b m' (inr g)),
      ),
    )
      where
        each : (m' : FetchedMessage) → Has m' (m ∷ ms) → (m'.uid ≤ top') × There m'.uid w
        each m' (inl e) =
            subst (λ (x : FetchedMessage). (x.uid ≤ top') × There x.uid w) (sym e) (omega arith, h)
        each m' (inr g) = q m' g

    pub ingest_batch-Batched :
        (ms : List FetchedMessage) (top count : ℕ) (w : Mailroom)
        → Batched ms top w (ingest_batch env account mailbox ms top count w)
    unfolding ingest_batch
    ingest_batch-Batched [] top count w = record {
      keeps = record { stays = λ uid h. h; state = refl };
      complete = (omega arith, ((λ m h. absurd h), (λ bound a b. a)));
    }
    ingest_batch-Batched (m ∷ ms) top count w =
        go (env.is_cancelled w.tick) (ingest_message env account mailbox m w)
          (ingest_message-Keeps m w) (ingest_message-Arrived m w)
          (λ n w'. ingest_batch-Batched ms (max m.uid top) (count + n) w')
      where
        next : ℕ → Syncing Batch
        next n = ingest_batch env account mailbox ms (max m.uid top) (count + n)

        go :
            (b : Bool) (x : Result ℕ × Mailroom)
            → Keeps w x.1
            → Arrived m.uid x
            → ((n : ℕ) (w' : Mailroom) → Batched ms (max m.uid top) w' (next n w'))
            → Batched (m ∷ ms) top w (if b then (ok stopped, w) else go_on next x)
        go true x k a rest = record {
          keeps = record { stays = λ uid h. h; state = refl };
          complete = tt;
        }
        go false (err e, w') k a rest = record { keeps = k; complete = tt }
        go false (ok n, w') k a rest = record {
          keeps = Keeps-trans k (rest n w').keeps;
          complete =
              Complete-∷ m ms top (next n w') ((rest n w').keeps.stays m.uid a)
                (rest n w').complete;
        }
