-- ===== src/Server.antt =====
-- What the handlers run on: the database, the rate limiter, and status codes as errors. A handler
-- takes the state and returns its outcome with the new state, also when it fails, since what was
-- written stays written. Whether a call of the database fails is decided from outside, by a test on
-- the calls of the handler.
pub mod Keeps
pub mod Holds
pub mod Reads
pub mod Runs
use invoices_contracts.Base.{
  Bool, true, false, Option, none, some, ◌≡◌, ◌⊎◌, inl, inr, refl, arith, if◌then◌else◌,
}
use invoices_contracts.RateLimit.{RateLimiter}
use invoices_contracts.Database.{Database}

pub data StatusCode : Type 0 where
  ok created no_content bad_request unauthorized not_found conflict gone payload_too_large :
      StatusCode
  too_many_requests internal_server_error : StatusCode

pub record Server : Type 0 where
  pub db : Database
  pub limiter : RateLimiter

pub data Outcome (A : Type 0) : Type 0 where
  done : A → Outcome A
  failed : StatusCode → Outcome A

abbrev pub Handler : Type 0 → Type 0
Handler A = Server → Outcome A × Server

-- The calls of the database that can fail.
pub data Call : Type 0 where
  acquire load_contract load_customer load_slot load_slots load_signatures : Call
  insert_contract_call insert_slot_call insert_signature_call : Call
  update_slot_call update_contract_call delete_contract_call : Call

abbrev pub Faults : Type 0
Faults = Call → Bool

module _ {A : Type 0} where
  unfoldable pub pure : A → Handler A
  pure a s = (done a, s)

  unfoldable pub fail : StatusCode → Handler A
  fail e s = (failed e, s)

  -- `ok_or(e)?`
  unfoldable pub or_fail : StatusCode → Option A → Handler A
  or_fail e none s = (failed e, s)
  or_fail e (some a) s = (done a, s)

  -- A read of the database, whose error is mapped to 500.
  unfoldable pub query : Bool → (Database → A) → Handler A
  query fault f s = if fault then (failed internal_server_error, s) else (done (f s.db), s)

-- `if !c { return Err(e) }`
unfoldable pub require : StatusCode → Bool → Handler (Unit {0})
require e c s = if c then (done tt, s) else (failed e, s)

-- A write of the database, whose error is mapped to 500.
unfoldable pub write : Bool → (Database → Database) → Handler (Unit {0})
write fault f s =
    if fault then (failed internal_server_error, s) else (done tt, record s { db = f s.db })

infixl 5 ◌>>=◌ ◌>>◌
-- To open this is to open all of the above.
unfoldable pub ◌>>=◌ : {A B : Type 0} → Handler A → (A → Handler B) → Handler B
unfolding pure fail or_fail query require write
◌>>=◌ m f s = let (r, t) = m s in elim r [ done a ↦ f a t | failed e ↦ (failed e, t) ]

abbrev pub ◌>>◌ : {B : Type 0} → Handler (Unit {0}) → Handler B → Handler B
m >> k = m >>= λ _. k

after-done :
    {A B : Type 0} (f : A → Handler B) (r : Outcome A × Server) (s' : Server) (b : B)
    → ◌≡◌ {A = Outcome B × Server}
        (elim (r.0) [ done a ↦ f a (r.1) | failed c ↦ (failed c, r.1) ])
        (done b, s')
    → (a : A) × (t : Server) × (r ≡ (done a, t)) × (f a t ≡ (done b, s'))
after-done f (done a, t) s' b e = (a, t, refl, e)
after-done f (failed c, t) s' b e = absurd (ground arith)

-- Inversion of a bind that is done.
pub >>=-done :
    {A B : Type 0} (m : Handler A) (f : A → Handler B) (s s' : Server) (b : B)
    → (m >>= f) s ≡ (done b, s')
    → (a : A) × (t : Server) × (m s ≡ (done a, t)) × (f a t ≡ (done b, s'))
unfolding ◌>>=◌
>>=-done m f s s' b e = after-done f (m s) s' b e

after-failed :
    {A B : Type 0} (f : A → Handler B) (r : Outcome A × Server) (t : Server) (c : StatusCode)
    → ◌≡◌ {A = Outcome B × Server}
        (elim (r.0) [ done a ↦ f a (r.1) | failed c ↦ (failed c, r.1) ])
        (failed c, t)
    → (r ≡ (failed c, t)) ⊎ ((a : A) × (u : Server) × (r ≡ (done a, u)) × (f a u ≡ (failed c, t)))
after-failed f (done a, u) t c e = inr (a, u, refl, e)
after-failed f (failed d, u) t c e = inl (ground arith)

-- A failure is one of the first step, or one of the rest.
pub >>=-failed :
    {A B : Type 0} (m : Handler A) (f : A → Handler B) (s t : Server) (c : StatusCode)
    → (m >>= f) s ≡ (failed c, t)
    → (m s ≡ (failed c, t))
      ⊎ ((a : A) × (u : Server) × (m s ≡ (done a, u)) × (f a u ≡ (failed c, t)))
unfolding ◌>>=◌
>>=-failed m f s t c e = after-failed f (m s) t c e

pub pure-ne-failed :
    {A : Type 0} (a : A) (s t : Server) (c : StatusCode) → ¬ (pure a s ≡ (failed c, t))
unfolding pure
pure-ne-failed a s t c e = ground arith
