-- ===== src/RateLimit.antt =====
-- src/rate_limit.rs: failed attempts by client address, in windows of 15 minutes.
--
-- `HashMap<IpAddr, AttemptTracker>` is an association list that keeps each address once. The lock
-- around it makes each method one step. `Utc::now()` is an argument of each method, in nanoseconds
-- since the epoch; a clock that runs backwards is allowed. `u32` counts wrap.
pub mod Table
pub mod Window
pub mod Plain
mod Live
pub mod Cleanup
mod Tests
pub use Table.{IpAddr, v4, v6, ip_eq, Attempts, lookup, remove, retain}
use Table.{insert}
use invoices_contracts.Base.{
  ℕ, ◌+◌, ◌-◌, ◌/◌, ◌%◌, ◌^◌, List, [], Option, none, some, Bool, true, false, leb, if◌then◌else◌,
}
use invoices_contracts.Base.Int.{ℤ, pos, ◌-ℤ◌, sub_ℕ, leb_ℤ, ltb_ℤ}

-- Nanoseconds since the epoch.
abbrev pub Time : Type 0
Time = ℕ

abbrev pub minute : ℕ
minute = 60000000000

-- `now.signed_duration_since(start).num_minutes()`, which rounds towards zero.
abbrev pub num_minutes : Time → Time → ℤ
num_minutes now start =
    if leb start now then pos ((now - start) / minute) else sub_ℕ 0 ((start - now) / minute)

pub record AttemptTracker : Type 0 where
  pub count : ℕ
  pub window_start : Time

pub record RateLimiter : Type 0 where
  pub attempts : Attempts AttemptTracker
  pub max_attempts : ℕ
  pub window_minutes : ℤ

-- `RateLimiter::new`
abbrev pub new : RateLimiter
new = record { attempts = []; max_attempts = 5; window_minutes = pos 15 }

-- `Result<(), String>` of `check_rate_limit`; the message of the error shows the minutes left.
pub data Verdict : Type 0 where
  allowed : Verdict
  limited : ℤ → Verdict

-- The test of `retain`: an entry stays for 30 minutes.
abbrev pub keeps : Time → AttemptTracker → Bool
keeps now tracker = ltb_ℤ (num_minutes now tracker.window_start) (pos 30)

unfoldable pub check_rate_limit : RateLimiter → IpAddr → Time → Verdict × RateLimiter
check_rate_limit limiter ip now =
    let attempts = retain (keeps now) limiter.attempts in
    let cleaned = record limiter { attempts = attempts } in
    elim (lookup ip attempts) [
      | none ↦ (allowed, cleaned)
      | some tracker ↦
          let elapsed = num_minutes now tracker.window_start in
          if leb_ℤ limiter.window_minutes elapsed
          then (allowed, record limiter { attempts = remove ip attempts })
          else if leb limiter.max_attempts tracker.count
          then (limited (limiter.window_minutes -ℤ elapsed), cleaned)
          else (allowed, cleaned)
    ]

-- The closure of `and_modify`.
abbrev pub bump : ℤ → Time → AttemptTracker → AttemptTracker
bump window now tracker =
    if leb_ℤ window (num_minutes now tracker.window_start)
    then record { count = 1; window_start = now }
    else record tracker { count = (tracker.count + 1) % 2 ^ 32 }

-- `entry(ip).and_modify(…).or_insert(…)`
abbrev pub modified : ℤ → Time → Option AttemptTracker → AttemptTracker
modified window now none = record { count = 1; window_start = now }
modified window now (some tracker) = bump window now tracker

unfoldable pub record_failed_attempt : RateLimiter → IpAddr → Time → RateLimiter
record_failed_attempt limiter ip now = record limiter {
  attempts =
      insert ip (modified limiter.window_minutes now (lookup ip limiter.attempts)) limiter.attempts;
}

unfoldable pub reset_attempts : RateLimiter → IpAddr → RateLimiter
reset_attempts limiter ip = record limiter { attempts = remove ip limiter.attempts }

unfoldable pub get_attempt_count : RateLimiter → IpAddr → ℕ
get_attempt_count limiter ip = elim (lookup ip limiter.attempts) [
  | none ↦ 0
  | some tracker ↦ tracker.count
]
