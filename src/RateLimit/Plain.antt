-- ===== src/RateLimit/Plain.antt =====
-- A plain limiter, which never forgets an entry: a function from addresses, with no clean-up and no
-- removal on expiry. It says what rate_limit.rs promises; `run` is the code under the same calls.
use invoices_contracts.Base.{◌≤◌, List, [], ◌∷◌, Option, none, some, if◌then◌else◌}
use invoices_contracts.RateLimit.Table.{IpAddr, ip_eq}
use invoices_contracts.RateLimit.Window.{decide}
use invoices_contracts.RateLimit.{
  Time, AttemptTracker, RateLimiter, Verdict, modified, check_rate_limit, record_failed_attempt,
  reset_attempts,
}

-- A plain limiter: what each address has, whatever its age.
abbrev pub Book : Type 0
Book = IpAddr → Option AttemptTracker

abbrev pub put : IpAddr → Option AttemptTracker → Book → Book
put ip o book key = if ip_eq.beq ip key then o else book key

-- The calls that handlers make, each with its time.
pub data Call : Type 0 where
  checks fails resets : IpAddr → Call

-- `some` verdict for a check.
unfoldable pub step : RateLimiter → Time → Call → Option Verdict × RateLimiter
step l now (checks ip) = let (v, l') = check_rate_limit l ip now in (some v, l')
step l now (fails ip) = (none, record_failed_attempt l ip now)
step l now (resets ip) = (none, reset_attempts l ip)

-- The same call on the plain limiter, with the settings of `l`.
unfoldable pub plain_step : RateLimiter → Book → Time → Call → Option Verdict × Book
plain_step l book now (checks ip) = (some (decide l now (book ip)), book)
plain_step l book now (fails ip) =
    (none, put ip (some (modified l.window_minutes now (book ip))) book)
plain_step l book now (resets ip) = (none, put ip none book)

-- The verdicts of a run.
unfoldable pub run : RateLimiter → List (Time × Call) → List (Option Verdict)
run l [] = []
run l ((now, c) ∷ cs) = let (v, l') = step l now c in v ∷ run l' cs

unfoldable pub plain_run : RateLimiter → Book → List (Time × Call) → List (Option Verdict)
plain_run l book [] = []
plain_run l book ((now, c) ∷ cs) =
    let (v, book') = plain_step l book now c in v ∷ plain_run l book' cs

-- The clock does not run backwards.
abbrev pub Ascending : Time → List (Time × Call) → Type 0
Ascending t [] = Unit {0}
Ascending t ((now, c) ∷ cs) = (t ≤ now) × Ascending now cs
