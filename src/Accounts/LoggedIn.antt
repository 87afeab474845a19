-- ===== src/Accounts/LoggedIn.antt =====
-- src/handlers/auth.rs: the logins and the setups that succeed.
use invoices_contracts.Base.{◌≡◌, true, some, arith, Text, ascii, find}
use invoices_contracts.Models.{User}
use invoices_contracts.Database.{Database}
use invoices_contracts.Database.Accounts.{has_email}
use invoices_contracts.Server.{Server, ok}
use invoices_contracts.Program.{value}
use invoices_contracts.Auth.Config.{JwtConfig}
use invoices_contracts.Auth.Store.{Services, verify_password}
use invoices_contracts.Accounts.Replies.{Answer, Visit, session_cookies, check_limit}
use invoices_contracts.Accounts.Login.{LoginRequest, LoginResponse}
use invoices_contracts.Accounts.Issued.{IsSession}

pub check_limit-inv :
    {E : Type 0} (e : E) (v : Visit) (s t : Server) (r : Unit {0})
    → check_limit e v s ≡ (value r, t)
    → s.db ≡ t.db
unfolding check_limit
check_limit-inv e v s t r h = ground arith

module _ (ext : Services) (config : JwtConfig) where
  -- What a login that succeeds tells: the user with the email that was given, whose password it is,
  -- and the session that the cookies of the answer carry.
  pub record IsLogin (v : Visit) (payload : LoginRequest) (before after : Database)
      (a : Answer LoginResponse) : Type 0 where
    pub user : User
    pub user_found : find (has_email payload.email) before.users ≡ some user
    pub password_right : verify_password ext payload.password user.password ≡ some true
    pub tokens : Text × Text
    pub session : IsSession ext config v user.id user.email tokens.0 tokens.1 after
    pub users_kept : after.users ≡ before.users
    pub answered : a ≡ record {
      status = ok;
      body = record {
        success = true;
        message = ascii "Login successful";
        user = some (record { id = user.id; name = user.name; email = user.email });
      };
      cookies = session_cookies tokens.0 tokens.1;
    }
