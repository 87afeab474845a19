-- ===== src/RateLimit/Live.antt =====
-- The entries whose window has not ended, and what a check leaves of them.
use invoices_contracts.Base.{
  ◌≤◌, ◌≡◌, refl, sym, subst, ◌∙◌, ◌⊎◌, inl, inr, Bool-cases, Option-cases, Option, none, some,
  arith, if◌then◌else◌,
}
use invoices_contracts.Base.Int.{ℤ, pos, ◌≤ℤ◌, leb_ℤ}
use invoices_contracts.RateLimit.Table.{
  IpAddr, ip_eq, Attempts, IsMap, lookup, remove, retain, kept, lookup-remove, lookup-retain,
  remove-IsMap, retain-IsMap,
}
use invoices_contracts.RateLimit.Window.{decide}
use invoices_contracts.RateLimit.{
  Time, num_minutes, AttemptTracker, RateLimiter, keeps, modified, check_rate_limit,
}

-- An entry whose window has not ended.
abbrev pub live : ℤ → Time → Option AttemptTracker → Option AttemptTracker
live w now none = none
live w now (some t) = if leb_ℤ w (num_minutes now t.window_start) then none else some t

pub num_minutes_mono :
    (now later start : Time) → now ≤ later → num_minutes now start ≤ℤ num_minutes later start
num_minutes_mono now later start h = ground arith

-- What has ended stays ended.
pub live-live :
    (w : ℤ) (now later : Time) (o : Option AttemptTracker)
    → now ≤ later
    → live w later (live w now o) ≡ live w later o
live-live w now later none h = refl
live-live w now later (some t) h = ground (arith, num_minutes_mono now later t.window_start h)

pub decide-live :
    (w : RateLimiter) (now : Time) (o : Option AttemptTracker)
    → decide w now (live w.window_minutes now o) ≡ decide w now o
decide-live w now none = refl
decide-live w now (some t) = ground arith

pub decide-settings :
    (l k : RateLimiter) (now : Time) (o : Option AttemptTracker)
    → l.window_minutes ≡ k.window_minutes
    → l.max_attempts ≡ k.max_attempts
    → decide l now o ≡ decide k now o
decide-settings l k now none e f = refl
decide-settings l k now (some t) e f = ground arith

pub modified-live :
    (w : ℤ) (now : Time) (o : Option AttemptTracker)
    → modified w now (live w now o) ≡ modified w now o
modified-live w now none = refl
modified-live w now (some t) = ground arith

live-kept :
    (w : ℤ) (now : Time) (o : Option AttemptTracker)
    → w ≤ℤ pos 30
    → live w now (kept (keeps now) o) ≡ live w now o
live-kept w now none short = refl
live-kept w now (some t) short = ground arith

-- What a check leaves: all that the clean-up keeps, less an entry of the client that has ended.
check-swept :
    (l : RateLimiter) (ip : IpAddr) (now : Time)
    → let a = retain (keeps now) l.attempts in
      let after = (check_rate_limit l ip now).1.attempts in
      (after ≡ a) ⊎ ((after ≡ remove ip a) × (live l.window_minutes now (lookup ip a) ≡ none))
unfolding check_rate_limit
check-swept l ip now = elim (Option-cases (lookup ip (retain (keeps now) l.attempts))) [
  | inl e ↦ inl (rw (e, check_rate_limit))
  | inr (t, e) ↦ elim (Bool-cases (leb_ℤ l.window_minutes (num_minutes now t.window_start))) [
    | inl ended ↦ inr (ground arith, ground arith)
    | inr open_now ↦ inl (ground arith)
  ]
]

live-remove :
    (w : ℤ) (now : Time) (ip key : IpAddr) (m : Attempts AttemptTracker)
    → live w now (lookup ip m) ≡ none
    → live w now (lookup key (remove ip m)) ≡ live w now (lookup key m)
live-remove w now ip key m e = rw lookup-remove (elim (Bool-cases (ip_eq.beq ip key)) [
  | inl same ↦ rw (same, ← (ip_eq.beq_iff ip key).0 same) (sym e)
  | inr differ ↦ rw differ
])

-- The clean-up of a check takes no live entry away.
live-check :
    (l : RateLimiter) (ip key : IpAddr) (now : Time)
    → IsMap l.attempts
    → l.window_minutes ≤ℤ pos 30
    → live l.window_minutes now (lookup key (check_rate_limit l ip now).1.attempts)
      ≡ live l.window_minutes now (lookup key l.attempts)
live-check l ip key now m short =
    let a = retain (keeps now) l.attempts in
    let swept : live l.window_minutes now (lookup key a)
        ≡ live l.window_minutes now (lookup key l.attempts) =
      rw (lookup-retain (keeps now) key l.attempts m)
        (live-kept l.window_minutes now (lookup key l.attempts) short) in
    elim (check-swept l ip now) [
      | inl e ↦ rw e swept
      | inr (e, ended) ↦ rw e (live-remove l.window_minutes now ip key a ended ∙ swept)
    ]

pub check-settings :
    (l : RateLimiter) (ip : IpAddr) (now : Time)
    → ((check_rate_limit l ip now).1.window_minutes ≡ l.window_minutes)
      × ((check_rate_limit l ip now).1.max_attempts ≡ l.max_attempts)
unfolding check_rate_limit
check-settings l ip now = ground arith

pub check-IsMap :
    (l : RateLimiter) (ip : IpAddr) (now : Time)
    → IsMap l.attempts
    → IsMap (check_rate_limit l ip now).1.attempts
unfolding check_rate_limit
check-IsMap l ip now m =
    ground (
      arith,
      retain-IsMap (keeps now) l.attempts m,
      remove-IsMap ip (retain (keeps now) l.attempts),
    )

pub live-check_at :
    (w : ℤ) (l : RateLimiter) (ip key : IpAddr) (now : Time)
    → l.window_minutes ≡ w
    → IsMap l.attempts
    → w ≤ℤ pos 30
    → live w now (lookup key (check_rate_limit l ip now).1.attempts)
      ≡ live w now (lookup key l.attempts)
live-check_at w l ip key now e m short =
    subst
      (λ v.
        live v now (lookup key (check_rate_limit l ip now).1.attempts)
        ≡ live v now (lookup key l.attempts))
      e (live-check l ip key now m (subst (λ v. v ≤ℤ pos 30) (sym e) short))
