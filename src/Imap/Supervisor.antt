-- ===== src/Imap/Supervisor.antt =====
-- The circuit breaker of an account's watchers (`AccountManager::run` of mailmux/src/imap/mod.rs):
-- what it does with the times of the failures when a watcher has panicked.
use mailmux.Base.{
  All, All-map, Bool, Bool-cases, List, SortedBy, [], ap, arith, false, if◌then◌else◌, inl, inr,
  leb, length, ltb, not, refl, select, sym, true, ℕ, ◌++◌, ◌+◌, ◌-◌, ◌<◌, ◌∷◌, ◌≡◌, ◌≤◌,
}

abbrev pub circuit_breaker_failures : ℕ
circuit_breaker_failures = 10

abbrev pub circuit_breaker_window : ℕ
circuit_breaker_window = 300

-- The failures outside the window, from the front of the queue.
unfoldable pub drop_old : ℕ → List ℕ → List ℕ
drop_old now [] = []
drop_old now (t ∷ ts) =
    let rest = drop_old now ts in if ltb circuit_breaker_window (now - t) then rest else t ∷ ts

-- The failures that are kept, and whether the watchers cool down.
abbrev pub tripped : List ℕ → List ℕ × Bool
tripped failures =
    if leb circuit_breaker_failures (length failures) then ([], true) else (failures, false)

unfoldable pub watcher_failed : ℕ → List ℕ → List ℕ × Bool
watcher_failed now failures = tripped (drop_old now (failures ++ (now ∷ [])))

-- The failures of a whole life of the manager, each with its time.
unfoldable pub watcher_failures : List ℕ → List ℕ → List ℕ
watcher_failures [] failures = failures
watcher_failures (now ∷ later) failures = watcher_failures later (watcher_failed now failures).0

-- A failure is in the window of the failure at `now`.
unfoldable pub in_window : ℕ → ℕ → Bool
in_window now t = leb now (t + 300)

abbrev pub Ascending : List ℕ → Type 0
Ascending = SortedBy leb

select-All : (p : ℕ → Bool) (ts : List ℕ) → All (λ t. p t ≡ true) ts → select p ts ≡ ts
select-All p [] h = refl
select-All p (t ∷ ts) (h, g) = rw h (ap (λ xs. t ∷ xs) (select-All p ts g))

later_in_window : (now t u : ℕ) → leb t u ≡ true → in_window now t ≡ true → in_window now u ≡ true
unfolding in_window
later_in_window now t u p q = ground arith

not_old : (now t : ℕ) → ltb circuit_breaker_window (now - t) ≡ not (in_window now t)
unfolding in_window
not_old now t = ground arith

drop_old-select :
    (now : ℕ) (ts : List ℕ) → Ascending ts → drop_old now ts ≡ select (in_window now) ts
unfolding drop_old
drop_old-select now [] h = refl
drop_old-select now (t ∷ ts) (h, g) =
    rw (not_old now t) (go (in_window now t) refl (drop_old-select now ts g))
  where
    go :
        (b : Bool)
        → in_window now t ≡ b
        → drop_old now ts ≡ select (in_window now) ts
        → (if not b then drop_old now ts else t ∷ ts)
          ≡ (if b then t ∷ select (in_window now) ts else select (in_window now) ts)
    go true e rest =
        ap (λ xs. t ∷ xs)
          (sym
            (select-All (in_window now) ts (All-map _ _ ts (λ u l. later_in_window now t u l e) h)))
    go false e rest = rest

-- What the breaker does with the failures in the window.
pub data Judged (recent : List ℕ) : List ℕ × Bool → Type 0 where
  breaks : 10 ≤ length recent → Judged recent ([], true)
  lets_pass : length recent < 10 → Judged recent (recent, false)

tripped-Judged : (recent : List ℕ) → Judged recent (tripped recent)
tripped-Judged recent = elim (Bool-cases (leb circuit_breaker_failures (length recent))) [
  | inl many ↦ rw many (breaks (ground arith))
  | inr few ↦ rw few (lets_pass (ground arith))
]

-- With the failures in the order of their times, the breaker trips, and forgets all failures, when ten
-- or more of them lie within 300 seconds of the last one; with fewer it does not trip, and keeps those
-- and no other.
pub watcher_failed-Judged :
    (now : ℕ) (failures : List ℕ)
    → Ascending (failures ++ (now ∷ []))
    → Judged (select (in_window now) (failures ++ (now ∷ []))) (watcher_failed now failures)
unfolding watcher_failed
watcher_failed-Judged now failures h =
    rw (drop_old-select now (failures ++ (now ∷ [])) h)
      (tripped-Judged (select (in_window now) (failures ++ (now ∷ []))))

-- Whenever the watchers fail, fewer than ten failures are kept, if fewer than ten were kept before.
pub watcher_failures-< :
    (times failures : List ℕ) → length failures < 10 → length (watcher_failures times failures) < 10
unfolding watcher_failures watcher_failed
watcher_failures-< [] failures h = h
watcher_failures-< (now ∷ later) failures h =
    watcher_failures-< later (watcher_failed now failures).0 (ground arith)
