-- ===== src/Imap/Sync/Mailbox.antt =====
-- What the queries of a synchronisation leave in the tables: the state of the mailbox (db/emails.rs)
-- and the rows of its messages (db/events.rs).
use mailmux.Base.{
  ==_refl, Bool, List, String, [], any, any-append, arith, false, find?, if◌then◌else◌, nat_eq,
  option_eq, refl, some, string_eq, true, update_where, ℕ, ◌++◌, ◌∷◌, ◌≡◌,
}
use mailmux.Db.{Db, MailboxState, NewEmail, NewEvent}
use mailmux.Db.Emails.{get_mailbox_state, is_mailbox, upsert_mailbox_state}
use mailmux.Db.Events.{email_row, insert_email_with_event, is_message}

-- A row of the message is there.
abbrev pub Stored : String → String → ℕ → Db → Type 0
Stored account mailbox uid db = any (is_message account mailbox uid) db.emails ≡ true

module _ (account mailbox : String) where
  -- A state that an upsert has written.
  abbrev Written : ℕ → ℕ → MailboxState → Type 0
  Written validity last_seen s = (s.uid_validity ≡ validity) × (s.last_seen_uid ≡ last_seen)

  updated-Written :
      (f : MailboxState → MailboxState) (validity last_seen : ℕ) (rows : List MailboxState)
      (s : MailboxState)
      → ((r : MailboxState) → is_mailbox account mailbox (f r) ≡ is_mailbox account mailbox r)
      → ((r : MailboxState) → Written validity last_seen (f r))
      → find? (is_mailbox account mailbox) (update_where (is_mailbox account mailbox) f rows)
        ≡ some s
      → Written validity last_seen s
  updated-Written f validity last_seen [] s k g h = absurd (cc h)
  updated-Written f validity last_seen (r ∷ rows) s k g h = (
    ground (arith, k r, (g r).0, updated-Written f validity last_seen rows s k g),
    ground (arith, k r, (g r).1, updated-Written f validity last_seen rows s k g),
  )

  appended-Written :
      (row : MailboxState) (rows : List MailboxState) (s : MailboxState)
      → any (is_mailbox account mailbox) rows ≡ false
      → find? (is_mailbox account mailbox) (rows ++ (row ∷ [])) ≡ some s
      → Written row.uid_validity row.last_seen_uid s
  appended-Written row [] s e h = ground arith
  appended-Written row (r ∷ rows) s e h = ground (arith, appended-Written row rows s)

  -- The state after an upsert.
  pub get-upsert :
      (now validity last_seen : ℕ) (db : Db) (state : MailboxState)
      → get_mailbox_state account mailbox
          (upsert_mailbox_state now account mailbox validity last_seen db)
        ≡ some state
      → (state.uid_validity ≡ validity) × (state.last_seen_uid ≡ last_seen)
  unfolding get_mailbox_state upsert_mailbox_state
  get-upsert now validity last_seen db state =
      go (any (is_mailbox account mailbox) db.mailbox_states) refl
    where
      f : MailboxState → MailboxState
      f r = record r { uid_validity = validity; last_seen_uid = last_seen; last_sync_at = some now }

      row : MailboxState
      row = record {
        account_id = account;
        mailbox_name = mailbox;
        uid_validity = validity;
        last_seen_uid = last_seen;
        last_sync_at = some now;
      }

      go :
          (b : Bool)
          → any (is_mailbox account mailbox) db.mailbox_states ≡ b
          → find? (is_mailbox account mailbox) (
              if b
              then update_where (is_mailbox account mailbox) f db.mailbox_states
              else db.mailbox_states ++ row ∷ [])
            ≡ some state
          → Written validity last_seen state
      go true e h =
          updated-Written f validity last_seen db.mailbox_states state (λ r. refl)
            (λ r. (refl, refl)) h
      go false e h = appended-Written row db.mailbox_states state e h

  pub Stored-upsert :
      (now validity last_seen uid : ℕ) (db : Db)
      → Stored account mailbox uid db
      → Stored account mailbox uid (upsert_mailbox_state now account mailbox validity last_seen db)
  unfolding upsert_mailbox_state
  Stored-upsert now validity last_seen uid db h = h

  pub Stored-insert :
      (now uid : ℕ) (email : NewEmail) (event : NewEvent) (db : Db)
      → Stored account mailbox uid db
      → Stored account mailbox uid (insert_email_with_event now email event db).1
  unfolding insert_email_with_event
  Stored-insert now uid email event db h = ground (
    arith,
    any-append (is_message account mailbox uid) db.emails (email_row now db.next_email email ∷ []),
  )

  -- The state is not touched by an insert.
  pub get-insert :
      (now : ℕ) (email : NewEmail) (event : NewEvent) (db : Db)
      → get_mailbox_state account mailbox (insert_email_with_event now email event db).1
        ≡ get_mailbox_state account mailbox db
  unfolding insert_email_with_event get_mailbox_state
  get-insert now email event db = ground arith

-- After an insert there is a row of the message, a new one or an old one.
pub insert-Stored :
    (now : ℕ) (email : NewEmail) (event : NewEvent) (db : Db)
    → Stored email.account_id email.mailbox_name email.uid
        (insert_email_with_event now email event db).1
unfolding insert_email_with_event
insert-Stored now email event db = ground (
  arith,
  any-append (is_message email.account_id email.mailbox_name email.uid) db.emails
      (email_row now db.next_email email ∷ []),
  ==_refl email.account_id,
  ==_refl email.mailbox_name,
  ==_refl email.uid,
)
