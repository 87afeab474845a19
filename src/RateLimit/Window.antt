-- ===== src/RateLimit/Window.antt =====
-- What a run of failures does to the client that fails, and to the others.
use invoices_contracts.Base.{
  ℕ, suc, ◌+◌, ◌^◌, ◌<◌, ◌≡◌, refl, true, List, [], ◌∷◌, Option, none, some, arith, leb, length,
  All, if◌then◌else◌,
}
use invoices_contracts.Base.Int.{pos, ◌-ℤ◌, ◌≤ℤ◌, leb_ℤ, ltb_ℤ}
use invoices_contracts.RateLimit.Table.{
  IpAddr, ip_eq, IsMap, lookup, lookup-insert, lookup-retain, insert-IsMap,
}
use invoices_contracts.RateLimit.{
  Time, num_minutes, AttemptTracker, RateLimiter, Verdict, allowed, limited, keeps, modified,
  check_rate_limit, record_failed_attempt,
}

-- Failures of one client at the given times, with no call in between.
unfoldable pub failures : RateLimiter → IpAddr → List Time → RateLimiter
failures limiter ip [] = limiter
failures limiter ip (t ∷ ts) = failures (record_failed_attempt limiter ip t) ip ts

abbrev pub InWindow : RateLimiter → Time → Time → Type 0
InWindow limiter start t = ltb_ℤ (num_minutes t start) limiter.window_minutes ≡ true

pub lookup-record :
    (limiter : RateLimiter) (ip key : IpAddr) (now : Time)
    → lookup key (record_failed_attempt limiter ip now).attempts ≡ (
        if ip_eq.beq ip key
        then some (modified limiter.window_minutes now (lookup ip limiter.attempts))
        else lookup key limiter.attempts)
unfolding record_failed_attempt
lookup-record limiter ip key now = lookup-insert ip key _ limiter.attempts

pub record-IsMap :
    (limiter : RateLimiter) (ip : IpAddr) (now : Time)
    → IsMap limiter.attempts
    → IsMap (record_failed_attempt limiter ip now).attempts
unfolding record_failed_attempt
record-IsMap limiter ip now h = insert-IsMap ip _ limiter.attempts h

-- A failure inside the window counts, and leaves the window where it is.
record-in-window :
    (limiter : RateLimiter) (ip : IpAddr) (c : ℕ) (start t : Time)
    → lookup ip limiter.attempts ≡ some (record { count = c; window_start = start })
    → InWindow limiter start t
    → suc c < 2 ^ 32
    → lookup ip (record_failed_attempt limiter ip t).attempts
      ≡ some (record { count = suc c; window_start = start })
record-in-window limiter ip c start t e inside small =
    ground (arith, lookup-record limiter ip ip t, ip_eq.beq_iff ip ip)

failures_count :
    (limiter : RateLimiter) (ip : IpAddr) (c : ℕ) (start : Time) (ts : List Time)
    → lookup ip limiter.attempts ≡ some (record { count = c; window_start = start })
    → All (InWindow limiter start) ts
    → c + length ts < 2 ^ 32
    → lookup ip (failures limiter ip ts).attempts
      ≡ some (record { count = c + length ts; window_start = start })
unfolding failures record_failed_attempt
failures_count limiter ip c start [] e h small = ground arith
failures_count limiter ip c start (t ∷ ts) e h small =
    let counted = record-in-window limiter ip c start t e h.0 (omega arith) in
    let rest =
      failures_count (record_failed_attempt limiter ip t) ip (suc c) start ts counted h.1
        (omega arith) in
    ground (arith, rest)

-- What a check says of an entry: the 30 minutes of the clean-up do not show in it.
abbrev pub decide : RateLimiter → Time → Option AttemptTracker → Verdict
decide limiter now none = allowed
decide limiter now (some tracker) =
    if leb_ℤ limiter.window_minutes (num_minutes now tracker.window_start)
    then allowed
    else if leb limiter.max_attempts tracker.count
    then limited (limiter.window_minutes -ℤ num_minutes now tracker.window_start)
    else allowed

pub check-decide :
    (limiter : RateLimiter) (ip : IpAddr) (now : Time)
    → IsMap limiter.attempts
    → limiter.window_minutes ≤ℤ pos 30
    → (check_rate_limit limiter ip now).0 ≡ decide limiter now (lookup ip limiter.attempts)
unfolding check_rate_limit
check-decide limiter ip now m short =
    ground (arith, lookup-retain (keeps now) ip limiter.attempts m)

pub failures-IsMap :
    (limiter : RateLimiter) (ip : IpAddr) (ts : List Time)
    → IsMap limiter.attempts
    → IsMap (failures limiter ip ts).attempts
unfolding failures
failures-IsMap limiter ip [] m = m
failures-IsMap limiter ip (t ∷ ts) m =
    failures-IsMap (record_failed_attempt limiter ip t) ip ts (record-IsMap limiter ip t m)

failures-settings :
    (limiter : RateLimiter) (ip : IpAddr) (ts : List Time)
    → ((failures limiter ip ts).window_minutes ≡ limiter.window_minutes)
      × ((failures limiter ip ts).max_attempts ≡ limiter.max_attempts)
unfolding failures record_failed_attempt
failures-settings limiter ip [] = (refl, refl)
failures-settings limiter ip (t ∷ ts) = failures-settings (record_failed_attempt limiter ip t) ip ts

-- For a client without an entry, failures inside one window of at most 30 minutes decide the next
-- check in that window: it is refused exactly from `max_attempts` failures on, with the minutes
-- that are left.
pub window_verdict :
    (limiter : RateLimiter) (ip : IpAddr) (start now : Time) (ts : List Time)
    → IsMap limiter.attempts
    → lookup ip limiter.attempts ≡ none
    → limiter.window_minutes ≤ℤ pos 30
    → All (InWindow limiter start) ts
    → InWindow limiter start now
    → suc (length ts) < 2 ^ 32
    → (check_rate_limit (failures limiter ip (start ∷ ts)) ip now).0 ≡ (
        if leb limiter.max_attempts (suc (length ts))
        then limited (limiter.window_minutes -ℤ num_minutes now start)
        else allowed)
unfolding failures record_failed_attempt
window_verdict limiter ip start now ts m fresh short h inside small =
    let first = record_failed_attempt limiter ip start in
    let counted : lookup ip first.attempts ≡ some (record { count = 1; window_start = start }) =
      ground (arith, lookup-record limiter ip ip start, ip_eq.beq_iff ip ip) in
    let tracked = failures_count first ip 1 start ts counted h (omega arith) in
    let valid = failures-IsMap first ip ts (record-IsMap limiter ip start m) in
    let settings = failures-settings first ip ts in
    ground (arith, check-decide (failures first ip ts) ip now valid, tracked, settings)
