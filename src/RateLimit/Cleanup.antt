-- ===== src/RateLimit/Cleanup.antt =====
-- src/rate_limit.rs: the limiter against the plain one.
use invoices_contracts.Base.{
  ◌≤◌, ◌≡◌, refl, sym, ap, ap₂, subst, ◌∙◌, inl, inr, Bool-cases, List, [], ◌∷◌, Option, none, some,
  if◌then◌else◌,
}
use invoices_contracts.Base.Int.{pos, ◌≤ℤ◌}
use invoices_contracts.RateLimit.Table.{
  IpAddr, ip_eq, IsMap, lookup, lookup-remove, lookup-insert, insert-IsMap, remove-IsMap,
}
use invoices_contracts.RateLimit.Window.{decide, check-decide}
use invoices_contracts.RateLimit.Plain.{
  Book, put, Call, checks, fails, resets, step, plain_step, run, plain_run, Ascending,
}
use invoices_contracts.RateLimit.Live.{
  live, live-live, decide-live, decide-settings, modified-live, live-check_at, check-settings,
  check-IsMap,
}
use invoices_contracts.RateLimit.{
  Time, AttemptTracker, RateLimiter, modified, check_rate_limit, record_failed_attempt,
  reset_attempts,
}

-- The plain limiter holds the same live entries, and the settings have not changed.
record Agrees (l₀ : RateLimiter) (now : Time) (l : RateLimiter) (book : Book) : Type 0 where
  is_map : IsMap l.attempts
  same_window : l.window_minutes ≡ l₀.window_minutes
  same_limit : l.max_attempts ≡ l₀.max_attempts
  entries :
      (ip : IpAddr)
      → live l₀.window_minutes now (lookup ip l.attempts) ≡ live l₀.window_minutes now (book ip)

Agrees-later :
    (l₀ l : RateLimiter) (book : Book) (now later : Time)
    → now ≤ later
    → Agrees l₀ now l book
    → Agrees l₀ later l book
Agrees-later l₀ l book now later h v = record {
  is_map = v.is_map;
  same_window = v.same_window;
  same_limit = v.same_limit;
  entries = λ ip.
      sym (live-live l₀.window_minutes now later (lookup ip l.attempts) h)
      ∙ ap (live l₀.window_minutes later) (v.entries ip)
      ∙ live-live l₀.window_minutes now later (book ip) h;
}

module _ (l₀ l : RateLimiter) (book : Book) (now : Time) (v : Agrees l₀ now l book) where
  same_modified :
      (ip : IpAddr)
      → modified l.window_minutes now (lookup ip l.attempts)
        ≡ modified l₀.window_minutes now (book ip)
  same_modified ip =
      ap (λ w. modified w now (lookup ip l.attempts)) v.same_window
      ∙ sym (modified-live l₀.window_minutes now (lookup ip l.attempts))
      ∙ ap (modified l₀.window_minutes now) (v.entries ip)
      ∙ modified-live l₀.window_minutes now (book ip)

  -- The same entry is put for one address in both.
  entries-put :
      (ip key : IpAddr) (o o' : Option AttemptTracker)
      → o ≡ o'
      → live l₀.window_minutes now (if ip_eq.beq ip key then o else lookup key l.attempts)
        ≡ live l₀.window_minutes now (put ip o' book key)
  entries-put ip key o o' e = elim (Bool-cases (ip_eq.beq ip key)) [
    | inl same ↦ rw (same, e)
    | inr differ ↦ rw differ (v.entries key)
  ]

  fails-Agrees :
      (ip : IpAddr)
      → Agrees l₀ now
          (record_failed_attempt l ip now)
          (put ip (some (modified l₀.window_minutes now (book ip))) book)
  unfolding record_failed_attempt
  fails-Agrees ip = record {
    is_map = insert-IsMap ip _ l.attempts v.is_map;
    same_window = v.same_window;
    same_limit = v.same_limit;
    entries = λ key.
        rw (lookup-insert ip key (modified l.window_minutes now (lookup ip l.attempts)) l.attempts)
          (entries-put ip key _ _ (ap some (same_modified ip)));
  }

  resets-Agrees : (ip : IpAddr) → Agrees l₀ now (reset_attempts l ip) (put ip none book)
  unfolding reset_attempts
  resets-Agrees ip = record {
    is_map = remove-IsMap ip l.attempts v.is_map;
    same_window = v.same_window;
    same_limit = v.same_limit;
    entries = λ key. rw (lookup-remove ip key l.attempts) (entries-put ip key none none refl);
  }

  checks-Agrees :
      (ip : IpAddr) → l₀.window_minutes ≤ℤ pos 30 → Agrees l₀ now (check_rate_limit l ip now).1 book
  checks-Agrees ip short = record {
    is_map = check-IsMap l ip now v.is_map;
    same_window = (check-settings l ip now).0 ∙ v.same_window;
    same_limit = (check-settings l ip now).1 ∙ v.same_limit;
    entries = λ key.
        live-check_at l₀.window_minutes l ip key now v.same_window v.is_map short ∙ v.entries key;
  }

  same_verdict :
      (ip : IpAddr)
      → l₀.window_minutes ≤ℤ pos 30
      → (check_rate_limit l ip now).0 ≡ decide l₀ now (book ip)
  same_verdict ip short =
      check-decide l ip now v.is_map (subst (λ w. w ≤ℤ pos 30) (sym v.same_window) short)
      ∙ decide-settings l l₀ now (lookup ip l.attempts) v.same_window v.same_limit
      ∙ sym (decide-live l₀ now (lookup ip l.attempts))
      ∙ ap (decide l₀ now) (v.entries ip)
      ∙ decide-live l₀ now (book ip)

step-Agrees :
    (l₀ l : RateLimiter) (book : Book) (now : Time) (c : Call)
    → l₀.window_minutes ≤ℤ pos 30
    → Agrees l₀ now l book
    → ((step l now c).0 ≡ (plain_step l₀ book now c).0)
      × Agrees l₀ now (step l now c).1 (plain_step l₀ book now c).1
unfolding step plain_step
step-Agrees l₀ l book now (checks ip) short v =
    (ap some (same_verdict l₀ l book now v ip short), checks-Agrees l₀ l book now v ip short)
step-Agrees l₀ l book now (fails ip) short v = (refl, fails-Agrees l₀ l book now v ip)
step-Agrees l₀ l book now (resets ip) short v = (refl, resets-Agrees l₀ l book now v ip)

run-Agrees :
    (l₀ l : RateLimiter) (book : Book) (now : Time) (cs : List (Time × Call))
    → l₀.window_minutes ≤ℤ pos 30
    → Agrees l₀ now l book
    → Ascending now cs
    → run l cs ≡ plain_run l₀ book cs
unfolding run plain_run
run-Agrees l₀ l book now [] short v up = refl
run-Agrees l₀ l book now ((later, c) ∷ cs) short v up =
    let (same, next) =
      step-Agrees l₀ l book later c short (Agrees-later l₀ l book now later up.0 v) in
    ap₂ ◌∷◌ same
      (run-Agrees l₀ (step l later c).1 (plain_step l₀ book later c).1 later cs short next up.1)

-- No sequence of checks, failures and resets of any clients gets another verdict than from a plain
-- limiter that never forgets an entry. The window is at most 30 minutes and the clock does not run
-- backwards.
pub run-plain_run :
    (l : RateLimiter) (now : Time) (cs : List (Time × Call))
    → IsMap l.attempts
    → l.window_minutes ≤ℤ pos 30
    → Ascending now cs
    → run l cs ≡ plain_run l (λ ip. lookup ip l.attempts) cs
run-plain_run l now cs m short up =
    run-Agrees l l (λ ip. lookup ip l.attempts) now cs short
      (record { is_map = m; same_window = refl; same_limit = refl; entries = λ ip. refl }) up
