-- ===== src/Mailtx/Run/Booking.antt =====
-- The mail of a run (`run` of mailtx/src/main.rs): whatever fails, no pending leg is lost.
use mailmux.Base.{
  Bool, List, Option, Result, String, bail, codes, err, false, if◌then◌else◌, lift, nat_eq, none,
  not, ok, option_eq, refl, some, string_eq, true, ℕ, ◌==◌, ◌≡◌,
}
use mailmux.Base.Effects.{◌>>=◌}
use mailmux.Mailtx.{CanonicalTransaction, MailtxConfig, TransactionData}
use mailmux.Mailtx.Books.{Bookkeeping, Books, Outside, attempt, post_transaction, set_result}
use mailmux.Mailtx.Canonical.{
  Input, InputEmail, canonical_from_llm, external_id_of, or_default, trimmed,
}
use mailmux.Mailtx.Matcher.{MatchedAssetAccount, resolve_asset_account}
use mailmux.Mailtx.Run.{
  book, book_as, book_canonical, book_categorised, book_email, book_extracted, book_input,
  book_resolved, called, flush_if, posted_regular, rule_for, run_mailtx,
}
use mailmux.Mailtx.Run.Flushing.{flush_if-Advance}
use mailmux.Mailtx.Run.Progression.{Advance, Advance-trans, Advance-unchanged}
use mailmux.Mailtx.Run.Transfers.{
  >>=-Advances, Advances, attempt_post-Advances, bail-Advances, called-Advances,
  called-then-Advances, lift-Advances, lift-then-Advances, measure-Advances, transfer_with-Advances,
}
use mailmux.Mailtx.Sender.{sender_allowed}
use mailmux.Mailtx.Store.Keys.{IsKeyed}
use mailmux.Mailtx.Transfer.{RuleMatch, leg_from_tx_type}

-- The transaction and the rule that the mail of a run leads to: what the language model extracts from
-- the mail, read as a transaction on the account that the mail names, and the rule that fits it.
pub record BookedFor (env : Outside) (config : MailtxConfig) (parsed : Result Input)
    (tx : CanonicalTransaction) (rule : RuleMatch) : Type 0 where
  pub input : Input
  pub email : InputEmail
  pub external : String
  pub body : String
  pub categories : List String
  pub call : ℕ
  pub now : ℕ
  pub transaction : TransactionData
  pub account : MatchedAssetAccount
  pub read : parsed ≡ ok input
  pub attached : input.email ≡ some email
  pub identified : external_id_of input ≡ ok external
  pub opened : env.extract_body email.raw_message_path ≡ ok body
  pub extracted : env.extract call (or_default "" email.subject) body categories ≡ ok transaction
  pub resolved :
      resolve_asset_account env.captures config (or_default "" email.subject) body ≡ ok account
  pub canonical :
      canonical_from_llm env.dates now transaction account.firefly_account_id config.tag email.date
        (trimmed transaction.category)
        (some external)
      ≡ ok tx
  pub detected :
      rule_for env config tx account.account_id
        (leg_from_tx_type (or_default "" transaction.transaction_type))
      ≡ some rule

module _ (env : Outside) (config : MailtxConfig) where
  abbrev pub Mailed : Result Input → CanonicalTransaction → RuleMatch → Type 0
  Mailed = BookedFor env config

  module _ (Meant : CanonicalTransaction → RuleMatch → Type 0) where
    posted_regular-Advances :
        (r : Result (Option String)) → Advances env config Meant (posted_regular env config r)
    posted_regular-Advances (ok receipt) w k = Advance-unchanged env config Meant w _ k refl refl
    posted_regular-Advances (err e) w k = Advance-unchanged env config Meant w _ k refl refl

    book-Advances :
        (tx : CanonicalTransaction) (account : String) (tx_type : Option String)
        → ((rule : RuleMatch)
            → rule_for env config tx account (leg_from_tx_type (or_default "" tx_type)) ≡ some rule
            → Meant tx rule)
        → Advances env config Meant (book env config tx account tx_type)
    unfolding book
    book-Advances tx account tx_type meant =
        go (rule_for env config tx account (leg_from_tx_type (or_default "" tx_type))) meant
      where
        go :
            (o : Option RuleMatch)
            → ((rule : RuleMatch) → o ≡ some rule → Meant tx rule)
            → Advances env config Meant (book_as env config tx o)
        go none m =
            >>=-Advances env config Meant (attempt (post_transaction env config tx))
              (posted_regular env config) (attempt_post-Advances env config Meant tx)
              posted_regular-Advances
        go (some rule) m =
            transfer_with-Advances env config Meant tx rule config.state_db (m rule refl)

    book_canonical-Advances :
        (account : String) (tx_type : Option String) (r : Result CanonicalTransaction)
        → ((tx : CanonicalTransaction) (rule : RuleMatch)
            → r ≡ ok tx
            → rule_for env config tx account (leg_from_tx_type (or_default "" tx_type)) ≡ some rule
            → Meant tx rule)
        → Advances env config Meant (book_canonical env config account tx_type r)
    book_canonical-Advances account tx_type (ok tx) meant =
        book-Advances tx account tx_type (λ rule e. meant tx rule refl e)
    book_canonical-Advances account tx_type (err e) meant = bail-Advances env config Meant e

  module _ (parsed : Result Input) (input : Input) (e : InputEmail) (external body : String)
      (read : parsed ≡ ok input) (attached : input.email ≡ some e)
      (identified : external_id_of input ≡ ok external)
      (opened : env.extract_body e.raw_message_path ≡ ok body) where
    book_resolved-Advances :
        (call : ℕ) (categories : List String) (tx : TransactionData)
        (r : Result MatchedAssetAccount)
        → env.extract call (or_default "" e.subject) body categories ≡ ok tx
        → resolve_asset_account env.captures config (or_default "" e.subject) body ≡ r
        → Advances env config (Mailed parsed) (book_resolved env config e external tx r)
    book_resolved-Advances call categories tx (err m) x y w k =
        Advance-unchanged env config (Mailed parsed) w _ k refl refl
    book_resolved-Advances call categories tx (ok r) x y w k =
        Advance-trans env config (Mailed parsed)
          (Advance-unchanged env config (Mailed parsed) w _ k refl refl)
          (book_canonical-Advances (Mailed parsed) r.account_id tx.transaction_type _
            (λ canonical rule c d. record {
              input = input;
              email = e;
              external = external;
              body = body;
              categories = categories;
              call = call;
              now = env.clock w.tick;
              transaction = tx;
              account = r;
              read = read;
              attached = attached;
              identified = identified;
              opened = opened;
              extracted = x;
              resolved = y;
              canonical = c;
              detected = d;
            })
            _ k)

    book_extracted-Advances :
        (call : ℕ) (categories : List String) (r : Result TransactionData)
        → env.extract call (or_default "" e.subject) body categories ≡ r
        → Advances env config (Mailed parsed) (book_extracted env config e external body r)
    book_extracted-Advances call categories (err m) x w k =
        Advance-unchanged env config (Mailed parsed) w _ k refl refl
    book_extracted-Advances call categories (ok tx) x w k =
        Advance-trans env config (Mailed parsed)
          (Advance-unchanged env config (Mailed parsed) w _ k refl refl)
          (go (tx.status == "not_found") (not (tx.status == "found")) _ k)
      where
        go :
            (b c : Bool)
            → Advances env config (Mailed parsed) {A = Unit {0}} (
                if b
                then set_result "no_transaction"
                else if c
                then bail "LLM returned an invalid transaction status"
                else book_resolved env config e external tx
                    (resolve_asset_account env.captures config (or_default "" e.subject) body))
        go true c =
            measure-Advances env config (Mailed parsed)
              (λ m. record m { result = some "no_transaction" })
        go false true =
            bail-Advances env config (Mailed parsed) "LLM returned an invalid transaction status"
        go false false = book_resolved-Advances call categories tx _ x refl

    book_categorised-Advances :
        (r : Result (List String))
        → Advances env config (Mailed parsed) (book_categorised env config e external body r)
    book_categorised-Advances (err m) w k =
        Advance-unchanged env config (Mailed parsed) w _ k refl refl
    book_categorised-Advances (ok categories) w k =
        Advance-trans env config (Mailed parsed)
          (Advance-unchanged env config (Mailed parsed) w _ k refl refl)
          (called-then-Advances env config (Mailed parsed)
            (λ n. env.extract n (or_default "" e.subject) body categories)
            (book_extracted env config e external body)
            (λ n. book_extracted-Advances n categories _ refl) _ k)

  module _ (parsed : Result Input) where
    book_email-Advances :
        (input : Input) (e : InputEmail) (external : String)
        → parsed ≡ ok input
        → input.email ≡ some e
        → external_id_of input ≡ ok external
        → Advances env config (Mailed parsed) (book_email env config e external)
    book_email-Advances input e external read attached identified =
        go (
          not
            (sender_allowed env.lowercase config.allowed_senders (codes (or_default "" e.sender))))
      where
        rest : Bookkeeping (Unit {0})
        rest = do
          body ← lift (env.extract_body e.raw_message_path)
          client ← lift env.llm_client
          categories ← called env config env.categories
          book_categorised env config e external body categories

        go :
            (b : Bool)
            → Advances env config
                (Mailed parsed)
                {A = Unit {0}}
                (if b then set_result "skipped_sender" else rest)
        go true =
            measure-Advances env config (Mailed parsed)
              (λ m. record m { result = some "skipped_sender" })
        go false =
            lift-then-Advances env config (Mailed parsed) (env.extract_body e.raw_message_path) _
              (λ body opened.
                >>=-Advances env config (Mailed parsed) (lift env.llm_client) _
                  (lift-Advances env config (Mailed parsed) env.llm_client)
                  (λ client.
                    >>=-Advances env config (Mailed parsed) (called env config env.categories)
                      (book_categorised env config e external body)
                      (called-Advances env config (Mailed parsed) env.categories)
                      (book_categorised-Advances parsed input e external body read attached
                        identified opened)))

    book_input-Advances :
        (input : Input) (o : Option InputEmail)
        → parsed ≡ ok input
        → input.email ≡ o
        → Advances env config (Mailed parsed) (book_input env config input o)
    book_input-Advances input none read attached =
        measure-Advances env config (Mailed parsed)
          (λ m. record m { result = some "skipped_sender" })
    book_input-Advances input (some e) read attached =
        lift-then-Advances env config (Mailed parsed) (external_id_of input)
          (book_email env config e) (λ external. book_email-Advances input e external read attached)

    -- From a keyed store, whatever fails in a run, the store keeps its keys, no posted transaction is
    -- forgotten, and every leg that was pending is pending still, or its fallback is among the posted
    -- transactions, or a transfer is that was made of the transaction of the run's mail by the rule
    -- detected for it, and that rule and amount are the leg's, and its leg the opposite one.
    pub run_mailtx-Advance :
        (w : Books)
        → IsKeyed w.store
        → Advance env config (BookedFor env config parsed) w (run_mailtx env config parsed w).1
    unfolding run_mailtx
    run_mailtx-Advance =
        >>=-Advances env config (Mailed parsed) (flush_if env config config.state_db) _
          (flush_if-Advance env config (Mailed parsed))
          (λ u.
            lift-then-Advances env config (Mailed parsed) parsed
              (λ input. book_input env config input input.email)
              (λ input read. book_input-Advances input input.email read refl))
