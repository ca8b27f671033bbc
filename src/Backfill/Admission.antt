-- ===== src/Backfill/Admission.antt =====
-- What the checks of `mailmux backfill` admit, and how the command ends (`run` of
-- mailmux/src/backfill.rs, `append_backfill_filters` of mailmux/src/db/emails.rs).
use mailmux.Backfill.{BackfillArgs, has_filter, is_backwards, validate}
use mailmux.Backfill.Command.{
  Plan, check_args, check_concurrency, check_config, check_processor, effective_concurrency,
  is_config_of, plan_of, prepare,
}
use mailmux.Base.{
  ==_comm, ==_refl, Bool, List, Option, Result, String, [], any, ap, arith, err, false, find?,
  if◌then◌else◌, nat_eq, none, not, ok, ok-injective, option_eq, refl, some, string_eq, subst, suc,
  sym, true, zero, ℕ, ◌&&◌, ◌==◌, ◌||◌, ◌∙◌, ◌∷◌, ◌≡◌, ◌≤◌,
}
use mailmux.Config.{
  ProcessorConfig, ProcessorSource, mailbox_listed, matches_source, source_matches,
}
use mailmux.Db.{EmailRecord}
use mailmux.Db.Emails.{
  EmailBackfillFilter, append_backfill_filters, mailbox_clause, source_clause, sources_clause,
}
use mailmux.Processor.Registry.{Processor, from_config, processor_by_name}

any-== : (s : String) (names : List String) → any (λ n. s == n) names ≡ any (λ n. n == s) names
any-== s [] = refl
any-== s (n ∷ ns) = ground (arith, ==_comm s n, any-== s ns)

mailbox_clause-listed :
    (mailboxes : Option (List String)) (name : String)
    → mailbox_clause mailboxes name ≡ mailbox_listed mailboxes name
mailbox_clause-listed none name = refl
mailbox_clause-listed (some []) name = refl
mailbox_clause-listed (some (n ∷ ns)) name = any-== name (n ∷ ns)

source_clause-source_matches :
    (e : EmailRecord) (s : ProcessorSource)
    → source_clause e s ≡ source_matches s e.account_id e.mailbox_name
unfolding source_matches
source_clause-source_matches e s =
    ap (λ b. b && mailbox_clause s.mailboxes e.mailbox_name) (==_comm e.account_id s.account)
    ∙ ap (λ b. s.account == e.account_id && b) (mailbox_clause-listed s.mailboxes e.mailbox_name)

any-source_clause :
    (e : EmailRecord) (ss : List ProcessorSource)
    → any (source_clause e) ss ≡ any (λ s. source_matches s e.account_id e.mailbox_name) ss
any-source_clause e [] = refl
any-source_clause e (s ∷ ss) =
    ap (λ b. b || any (source_clause e) ss) (source_clause-source_matches e s)
    ∙ ap (λ b. source_matches s e.account_id e.mailbox_name || b) (any-source_clause e ss)

-- The clause of the query is the source filter of the processor's configuration.
pub sources_clause-matches_source :
    (c : ProcessorConfig) (e : EmailRecord)
    → sources_clause c.sources e ≡ matches_source c e.account_id e.mailbox_name
unfolding matches_source
sources_clause-matches_source c e = go c.sources
  where
    go :
        (sources : Option (List ProcessorSource))
        → sources_clause sources e ≡ elim sources [
          | none ↦ true
          | some ss ↦ any (λ s. source_matches s e.account_id e.mailbox_name) ss
        ]
    go none = refl
    go (some []) = refl
    go (some (s ∷ ss)) = any-source_clause e (s ∷ ss)

filters-sources :
    (filter : EmailBackfillFilter) (e : EmailRecord)
    → append_backfill_filters filter e ≡ true
    → sources_clause filter.processor_sources e ≡ true
unfolding append_backfill_filters
filters-sources filter e h = ground arith

-- What holds of a backfill that passes the checks.
pub record IsAdmitted (configs : List ProcessorConfig) (args : BackfillArgs) (plan : Plan)
    : Type 0 where
  pub config : ProcessorConfig
  pub configured : find? (is_config_of args.processor) configs ≡ some config
  pub enabled : config.enabled ≡ true
  pub registered : processor_by_name (from_config configs) args.processor ≡ some plan.processor
  pub subscribed : any (λ e. e == "email_arrived") plan.processor.subscribed_events ≡ true
  pub concurrent : 1 ≤ plan.settings.concurrency
  pub narrowed : (has_filter args || args.all_emails) ≡ true
  pub sourced :
      (e : EmailRecord)
      → append_backfill_filters plan.filter e ≡ true
      → matches_source config e.account_id e.mailbox_name ≡ true

positive : (n : ℕ) → (n == 0) ≡ false → 1 ≤ n
positive zero h = absurd (cc (sym (==_refl {A = ℕ} 0) ∙ h))
positive (suc n) h = omega arith

module _ (configs : List ProcessorConfig) (args : BackfillArgs) (plan : Plan) where
  check_concurrency-IsAdmitted :
      (c : ProcessorConfig) (p : Processor) (n : ℕ)
      → (has_filter args || args.all_emails) ≡ true
      → find? (is_config_of args.processor) configs ≡ some c
      → c.enabled ≡ true
      → processor_by_name (from_config configs) args.processor ≡ some p
      → any (λ e. e == "email_arrived") p.subscribed_events ≡ true
      → check_concurrency args c p n ≡ ok plan
      → IsAdmitted configs args plan
  check_concurrency-IsAdmitted c p n narrowed found enabled registered subscribed =
      go (n == 0) (positive n)
    where
      go :
          (b : Bool)
          → (b ≡ false → 1 ≤ n)
          → (if b
              then err "backfill concurrency must be greater than zero"
              else ok (plan_of args c p n))
            ≡ ok plan
          → IsAdmitted configs args plan
      go true z h = absurd (cc h)
      go false z h = subst (IsAdmitted configs args) (ok-injective h) (record {
        config = c;
        configured = found;
        enabled = enabled;
        registered = registered;
        subscribed = subscribed;
        concurrent = z refl;
        narrowed = narrowed;
        sourced = λ e m.
            sym (sources_clause-matches_source c e)
            ∙ filters-sources (plan_of args c p n).filter e m;
      })

  check_processor-IsAdmitted :
      (c : ProcessorConfig) (o : Option Processor)
      → (has_filter args || args.all_emails) ≡ true
      → find? (is_config_of args.processor) configs ≡ some c
      → c.enabled ≡ true
      → processor_by_name (from_config configs) args.processor ≡ o
      → check_processor args c o ≡ ok plan
      → IsAdmitted configs args plan
  check_processor-IsAdmitted c none narrowed found enabled registered h = absurd (cc h)
  check_processor-IsAdmitted c (some p) narrowed found enabled registered h =
      go (any (λ e. e == "email_arrived") p.subscribed_events) refl h
    where
      go :
          (b : Bool)
          → any (λ e. e == "email_arrived") p.subscribed_events ≡ b
          → (if not b
              then err "processor is not subscribed to event type 'email_arrived'"
              else check_concurrency args c p (effective_concurrency args.concurrency c))
            ≡ ok plan
          → IsAdmitted configs args plan
      go true s h =
          check_concurrency-IsAdmitted c p (effective_concurrency args.concurrency c) narrowed found
            enabled registered s h
      go false s h = absurd (cc h)

  check_config-IsAdmitted :
      (o : Option ProcessorConfig)
      → (has_filter args || args.all_emails) ≡ true
      → find? (is_config_of args.processor) configs ≡ o
      → check_config configs args o ≡ ok plan
      → IsAdmitted configs args plan
  check_config-IsAdmitted none narrowed found h = absurd (cc h)
  check_config-IsAdmitted (some c) narrowed found h = go c.enabled refl h
    where
      go :
          (b : Bool)
          → c.enabled ≡ b
          → (if not b
              then err "processor is disabled in configuration"
              else check_processor args c (processor_by_name (from_config configs) args.processor))
            ≡ ok plan
          → IsAdmitted configs args plan
      go true s h =
          check_processor-IsAdmitted c (processor_by_name (from_config configs) args.processor)
            narrowed found s refl h
      go false s h = absurd (cc h)

  check_args-IsAdmitted :
      (r : Result (Unit {0}))
      → (r ≡ ok tt → (has_filter args || args.all_emails) ≡ true)
      → check_args configs args r ≡ ok plan
      → IsAdmitted configs args plan
  check_args-IsAdmitted (err e) narrowed h = absurd (cc h)
  check_args-IsAdmitted (ok u) narrowed h =
      check_config-IsAdmitted (find? (is_config_of args.processor) configs) (narrowed refl) refl h

  validate-narrowed : validate args ≡ ok tt → (has_filter args || args.all_emails) ≡ true
  unfolding validate
  validate-narrowed = go (has_filter args) args.all_emails
    where
      go :
          (b c : Bool)
          → (let r : Result (Unit {0}) =
                if not b && not c
                then err "backfill requires at least one selection filter or an explicit --all"
                else if is_backwards args.after args.before
                then err "invalid date range: --after must be strictly earlier than --before"
                else ok tt in
              r ≡ ok tt)
          → (b || c) ≡ true
      go true c h = refl
      go false true h = refl
      go false false h = absurd (cc h)

  -- A backfill passes the checks only for the enabled, registered and subscribed processor of that
  -- name, with a filter or `--all` and a concurrency of one at least; and every email that its query
  -- selects meets the source filter of the processor's configuration.
  pub prepare-IsAdmitted : prepare configs args ≡ ok plan → IsAdmitted configs args plan
  unfolding prepare
  prepare-IsAdmitted h = check_args-IsAdmitted (validate args) validate-narrowed h
