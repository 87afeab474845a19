-- ===== src/Accounts/Replies.antt =====
-- src/handlers/auth.rs and src/models.rs: what the account handlers answer, and the steps that they
-- share.
use invoices_contracts.Base.{Bool, true, List, [], ◌∷◌, Text}
use invoices_contracts.RateLimit.{
  Time, IpAddr, allowed, limited, check_rate_limit, record_failed_attempt, reset_attempts,
}
use invoices_contracts.Database.{Database}
use invoices_contracts.Server.{Server, StatusCode}
use invoices_contracts.Program.{value, stop, Program}
use invoices_contracts.Auth.Config.{cookie_name, refresh_cookie_name}
use invoices_contracts.Auth.Store.{Call, Condition}

-- A cookie of tower_cookies, with what the handlers set.
pub record Cookie : Type 0 where
  pub name : Text
  pub text : Text
  pub http_only : Bool
  pub secure : Bool
  pub same_site_strict : Bool
  pub path_root : Bool

abbrev pub session_cookie : Text → Text → Cookie
session_cookie name text = record {
  name = name;
  text = text;
  http_only = true;
  secure = true;
  same_site_strict = true;
  path_root = true;
}

abbrev pub session_cookies : Text → Text → List Cookie
session_cookies token refresh_token =
    session_cookie cookie_name token ∷ (session_cookie refresh_cookie_name refresh_token ∷ [])

pub record Answer (B : Type 0) : Type 0 where
  pub status : StatusCode
  pub body : B
  pub cookies : List Cookie

abbrev pub answer : {B : Type 0} → StatusCode → B → Answer B
answer status body = record { status = status; body = body; cookies = [] }

-- What a request brings besides its body: the client, the readings of the clock, random bytes, and
-- how the database answers.
pub record Visit : Type 0 where
  pub client_ip : IpAddr
  pub check_at : Time
  pub failed_at : Time
  pub issued_at : Time
  pub jwt_stored_at : Time
  pub refresh_stored_at : Time
  pub bytes : Text
  pub salt : Text
  pub conditions : Call → Condition

-- A program on the database, run on the server.
unfoldable pub on_db : {E A : Type 0} → Program Database E A → Program Server E A
on_db m s = let (r, db) = m s.db in (r, record s { db = db })

-- `if check_rate_limit(client_ip).await.is_err() { return e }`
unfoldable pub check_limit : {E : Type 0} → E → Visit → Program Server E (Unit {0})
check_limit e v s =
    let (verdict, limiter) = check_rate_limit s.limiter v.client_ip v.check_at in
    elim verdict [
      | allowed ↦ (value tt, record s { limiter = limiter })
      | limited minutes ↦ (stop e, record s { limiter = limiter })
    ]

unfoldable pub record_failure : {E : Type 0} → Visit → Program Server E (Unit {0})
record_failure v s =
    (value tt, record s { limiter = record_failed_attempt s.limiter v.client_ip v.failed_at })

unfoldable pub reset : {E : Type 0} → Visit → Program Server E (Unit {0})
reset v s = (value tt, record s { limiter = reset_attempts s.limiter v.client_ip })
