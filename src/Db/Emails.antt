-- ===== src/Db/Emails.antt =====
-- mailmux/src/db/emails.rs: the sync state of a mailbox, and the selection of stored emails.
use mailmux.Base.{
  Bool, List, Option, String, [], any, false, find?, if◌then◌else◌, leb, length, ltb, nat_eq, none,
  option_eq, select, some, string_eq, take, true, update_where, ℕ, ◌&&◌, ◌++◌, ◌==◌, ◌∷◌,
}
use mailmux.Config.{ProcessorSource}
use mailmux.Db.{Db, EmailRecord, MailboxState}

-- UNIQUE (account_id, mailbox_name)
abbrev pub is_mailbox : String → String → MailboxState → Bool
is_mailbox account mailbox s = s.account_id == account && s.mailbox_name == mailbox

unfoldable pub get_mailbox_state : String → String → Db → Option MailboxState
get_mailbox_state account mailbox db = find? (is_mailbox account mailbox) db.mailbox_states

unfoldable pub upsert_mailbox_state : ℕ → String → String → ℕ → ℕ → Db → Db
upsert_mailbox_state now account mailbox validity last_seen db = record db {
  mailbox_states =
      if any (is_mailbox account mailbox) db.mailbox_states
      then update_where (is_mailbox account mailbox)
          (λ s. record s {
            uid_validity = validity;
            last_seen_uid = last_seen;
            last_sync_at = some now;
          })
          db.mailbox_states
      else db.mailbox_states
        ++ record {
          account_id = account;
          mailbox_name = mailbox;
          uid_validity = validity;
          last_seen_uid = last_seen;
          last_sync_at = some now;
        }
          ∷ [];
}

unfoldable pub get_email_by_id : ℕ → Db → Option EmailRecord
get_email_by_id id db = find? (λ e. e.id == id) db.emails

pub record EmailBackfillFilter : Type 0 where
  pub after : Option ℕ
  pub before : Option ℕ
  pub accounts : List String
  pub mailboxes : List String
  pub email_ids : List ℕ
  pub processor_sources : Option (List ProcessorSource)

-- A comparison with NULL is not true, so an email without a date meets no bound.
abbrev pub date_from : Option ℕ → Option ℕ → Bool
date_from none date = true
date_from (some after) none = false
date_from (some after) (some date) = leb after date

abbrev pub date_until : Option ℕ → Option ℕ → Bool
date_until none date = true
date_until (some before) none = false
date_until (some before) (some date) = ltb date before

-- ` AND (column = $1 OR column = $2 …)`, left out when there is no value.
abbrev pub one_of : List String → String → Bool
one_of [] value = true
one_of (v ∷ vs) value = any (λ v'. value == v') (v ∷ vs)

abbrev pub one_of_ids : List ℕ → ℕ → Bool
one_of_ids [] id = true
one_of_ids (v ∷ vs) id = any (λ v'. id == v') (v ∷ vs)

-- `(account_id = $1)`, `(account_id = $1 AND FALSE)`, `(account_id = $1 AND (mailbox_name = …))`
abbrev pub mailbox_clause : Option (List String) → String → Bool
mailbox_clause none mailbox = true
mailbox_clause (some []) mailbox = false
mailbox_clause (some (n ∷ ns)) mailbox = any (λ name. mailbox == name) (n ∷ ns)

abbrev pub source_clause : EmailRecord → ProcessorSource → Bool
source_clause e s = e.account_id == s.account && mailbox_clause s.mailboxes e.mailbox_name

abbrev pub sources_clause : Option (List ProcessorSource) → EmailRecord → Bool
sources_clause none e = true
sources_clause (some []) e = false
sources_clause (some (s ∷ ss)) e = any (source_clause e) (s ∷ ss)

-- The predicate that `append_backfill_filters` writes, as the database reads it.
unfoldable pub append_backfill_filters : EmailBackfillFilter → EmailRecord → Bool
append_backfill_filters filter e =
    date_from filter.after e.date
    && (date_until filter.before e.date
        && (one_of filter.accounts e.account_id
            && (one_of filter.mailboxes e.mailbox_name
                && (sources_clause filter.processor_sources e
                    && one_of_ids filter.email_ids e.id))))

unfoldable pub count_emails_for_backfill : EmailBackfillFilter → Db → ℕ
count_emails_for_backfill filter db = length (select (append_backfill_filters filter) db.emails)

-- ORDER BY id ASC
unfoldable pub insert_email : EmailRecord → List EmailRecord → List EmailRecord
insert_email e [] = e ∷ []
insert_email e (f ∷ fs) = if leb e.id f.id then e ∷ f ∷ fs else f ∷ insert_email e fs

unfoldable pub sort_emails : List EmailRecord → List EmailRecord
sort_emails [] = []
sort_emails (e ∷ es) = insert_email e (sort_emails es)

unfoldable pub get_email_backfill_page : EmailBackfillFilter → ℕ → ℕ → Db → List EmailRecord
get_email_backfill_page filter last_id page_size db =
    take page_size
      (sort_emails (select (λ e. ltb last_id e.id && append_backfill_filters filter e) db.emails))
