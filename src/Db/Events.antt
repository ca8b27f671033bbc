-- ===== src/Db/Events.antt =====
-- mailmux/src/db/events.rs.
use mailmux.Base.{
  Bool, List, Option, String, [], any, false, if◌then◌else◌, leb, map, nat_eq, none, option_eq,
  select, some, string_eq, suc, take, true, ℕ, ◌&&◌, ◌++◌, ◌==◌, ◌∷◌,
}
use mailmux.Db.{Db, EmailRecord, Event, EventRow, NewEmail, NewEvent, event_at}

-- UNIQUE (account_id, mailbox_name, uid)
abbrev pub is_message : String → String → ℕ → EmailRecord → Bool
is_message account mailbox uid e =
    e.account_id == account && (e.mailbox_name == mailbox && e.uid == uid)

abbrev pub email_row : ℕ → ℕ → NewEmail → EmailRecord
email_row now id e = record {
  id = id;
  account_id = e.account_id;
  mailbox_name = e.mailbox_name;
  uid = e.uid;
  message_id = e.message_id;
  subject = e.subject;
  sender = e.sender;
  recipients = e.recipients;
  date = e.date;
  flags = e.flags;
  raw_message_path = e.raw_message_path;
  size_bytes = e.size_bytes;
  created_at = now;
  updated_at = now;
}

abbrev pub event_row : ℕ → ℕ → ℕ → NewEvent → EventRow
event_row now id email_id e = record {
  event = record {
    id = id;
    event_type = e.event_type;
    account_id = e.account_id;
    mailbox_name = e.mailbox_name;
    email_id = some email_id;
    payload = e.payload;
    created_at = now;
  };
  dispatched_at = none;
}

-- The rollback of a duplicate takes back the rows and not the sequence's value.
unfoldable pub insert_email_with_event : ℕ → NewEmail → NewEvent → Db → Option (ℕ × ℕ) × Db
insert_email_with_event now email event db =
    if any (is_message email.account_id email.mailbox_name email.uid) db.emails
    then (none, record db { next_email = suc db.next_email })
    else (
      some (db.next_email, db.next_event),
      record db {
        emails = db.emails ++ email_row now db.next_email email ∷ [];
        next_email = suc db.next_email;
        events = db.events ++ event_row now db.next_event db.next_email event ∷ [];
        next_event = suc db.next_event;
        notified = db.notified ++ db.next_event ∷ [];
      },
    )

abbrev pub is_undispatched : EventRow → Bool
is_undispatched e = elim e.dispatched_at [ none ↦ true | some t ↦ false ]

-- ORDER BY e.id ASC
unfoldable pub insert_event : EventRow → List EventRow → List EventRow
insert_event e [] = e ∷ []
insert_event e (f ∷ fs) = if leb e.event.id f.event.id then e ∷ f ∷ fs else f ∷ insert_event e fs

unfoldable pub sort_events : List EventRow → List EventRow
sort_events [] = []
sort_events (e ∷ es) = insert_event e (sort_events es)

unfoldable pub get_unprocessed_events : ℕ → Db → List Event
get_unprocessed_events limit db =
    map (λ e. e.event) (take limit (sort_events (select is_undispatched db.events)))

unfoldable pub get_event_by_id : ℕ → Db → Option Event
unfolding event_at
get_event_by_id id db = elim (event_at id db) [ none ↦ none | some e ↦ some e.event ]
