-- ===== src/RateLimit/Tests.antt =====
-- Runs of the limiter, and its theorems at concrete inputs.
use invoices_contracts.Base.{◌*◌, ◌≡◌, refl, List, [], ◌∷◌, none, arith}
use invoices_contracts.Base.Int.{pos}
use invoices_contracts.RateLimit.Table.{IpAddr, v4, lookup, retain, remove, insert, ip_eq}
use invoices_contracts.RateLimit.{
  Time, minute, new, allowed, limited, check_rate_limit, record_failed_attempt, reset_attempts,
  get_attempt_count,
}
use invoices_contracts.RateLimit.Window.{failures, window_verdict}
use invoices_contracts.RateLimit.Plain.{Call, checks, fails, resets, run, plain_run}
use invoices_contracts.RateLimit.Cleanup.{run-plain_run}

abbrev home : IpAddr
home = v4 0x7f000001

abbrev other : IpAddr
other = v4 0xc0a80101

-- `test_different_ips_tracked_separately`
separate :
    let l = failures new home (1 ∷ 2 ∷ 3 ∷ 4 ∷ 5 ∷ []) in
    ((check_rate_limit l home 6).0 ≡ limited (pos 15))
    × ((check_rate_limit l other 6).0 ≡ allowed)
    × (get_attempt_count l home ≡ 5)
unfolding failures record_failed_attempt check_rate_limit get_attempt_count lookup retain remove
    insert ip_eq
separate = (refl, refl, refl)

-- `test_reset_clears_attempts`
reset_clears :
    let l = reset_attempts (failures new home (1 ∷ 2 ∷ [])) home in
    (get_attempt_count l home ≡ 0) × ((check_rate_limit l home 3).0 ≡ allowed)
unfolding failures record_failed_attempt reset_attempts check_rate_limit get_attempt_count lookup
    retain remove insert ip_eq
reset_clears = (refl, refl)

window_verdict_example :
    (check_rate_limit (failures new home (1 ∷ 2 ∷ 3 ∷ 4 ∷ 5 ∷ [])) home (10 * minute)).0
    ≡ limited (pos 6)
unfolding lookup
window_verdict_example =
    window_verdict new home 1 (10 * minute) (2 ∷ 3 ∷ 4 ∷ 5 ∷ []) tt refl (omega arith)
      (refl, (refl, (refl, (refl, tt)))) refl (omega arith)

abbrev calls : List (Time × Call)
calls =
    (1, fails home)
    ∷ (2, checks other)
    ∷ (40 * minute, checks home)
    ∷ (41 * minute, resets home)
    ∷ []

run-plain_run_example : run new calls ≡ plain_run new (λ ip. none) calls
unfolding lookup
run-plain_run_example = run-plain_run new 0 calls tt (omega arith) (omega arith)
