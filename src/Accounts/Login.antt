-- ===== src/Accounts/Login.antt =====
-- src/handlers/auth.rs: `login`, `logout` and `verify_auth`.
use invoices_contracts.Base.{
  Bool, true, false, ◌&&◌, List, [], ◌∷◌, ◌++◌, Option, none, some, Text, ascii, if◌then◌else◌,
}
use invoices_contracts.Base.Int.{ℤ}
use invoices_contracts.RateLimit.{Time}
use invoices_contracts.Models.{User}
use invoices_contracts.Database.{Database}
use invoices_contracts.Server.{
  Server, StatusCode, ok, unauthorized, too_many_requests, internal_server_error,
}
use invoices_contracts.Program.{
  Program, pure, return_early, or_return, ◌>>=◌, ◌>>◌, ok_of, map_err, ignore,
}
use invoices_contracts.Auth.Config.{JwtConfig, cookie_name, refresh_cookie_name}
use invoices_contracts.Auth.Store.{
  AuthError, Services, Condition, Decoded, valid, expired, invalid, Call, get_user_by_email_call,
  store_jwt_call, store_refresh_token_call, revoke_token_call, revoke_refresh_token_call,
  get_user_by_email, verify_password, generate_jwt, decode_jwt, store_jwt, generate_refresh_token,
  store_refresh_token, revoke_token, revoke_refresh_token,
}
use invoices_contracts.Accounts.Replies.{
  Answer, answer, Visit, session_cookies, on_db, check_limit, record_failure, reset,
}

pub record LoginRequest : Type 0 where
  pub email : Text
  pub password : Text

pub record UserInfo : Type 0 where
  pub id : ℤ
  pub name : Text
  pub email : Text

pub record LoginResponse : Type 0 where
  pub success : Bool
  pub message : Text
  pub user : Option UserInfo

abbrev pub refused : StatusCode → Text → Answer LoginResponse
refused status message = answer status (record { success = false; message = message; user = none })

abbrev pub dummy_hash : Text
dummy_hash = ascii "$2b$12$LQv3c1yqBWVHxkd0LHAkCOYz6TtxMQJqhN8/LewY5KeJKj8v7W5uK"

-- The hash that the password is tried on, and whether there is a user.
abbrev pub hash_of : Option User → Text × Bool
hash_of none = (dummy_hash, false)
hash_of (some user) = (user.password, true)

module _ (ext : Services) (config : JwtConfig) where
  -- A password is verified also where there is no user, which then does not count.
  unfoldable pub verify_login : Option User → Text → Program Server (Answer LoginResponse) Bool
  verify_login user_option password = do
    let hashed = hash_of user_option
    matches ←
        or_return (refused internal_server_error (ascii "Server error"))
          (verify_password ext password hashed.0)
    pure (matches && hashed.1)

  -- The tokens of a user, stored.
  unfoldable pub issue_tokens :
      {B : Type 0} → (Text → Answer B) → Visit → ℤ → Text → Program Server (Answer B) (Text × Text)
  issue_tokens e v user_id email = do
    token ←
        or_return (e (ascii "Failed to generate token"))
          (generate_jwt ext user_id email config v.issued_at)
    on_db (
        map_err (λ _. e (ascii "Failed to store token"))
          (store_jwt ext (v.conditions store_jwt_call) config v.jwt_stored_at user_id token))
    on_db (
        map_err (λ _. e (ascii "Failed to store refresh token"))
          (store_refresh_token ext (v.conditions store_refresh_token_call) config
            v.refresh_stored_at user_id (generate_refresh_token ext v.bytes)))
    pure (token, generate_refresh_token ext v.bytes)

  -- A wrong password and an unknown email are answered alike, and recorded.
  unfoldable pub reject_invalid : Visit → Bool → Program Server (Answer LoginResponse) (Unit {0})
  reject_invalid v password_valid = if password_valid then pure tt else (do
    record_failure v
    return_early (refused unauthorized (ascii "Invalid email or password")))

  unfoldable pub login :
      Visit → LoginRequest → Program Server (Answer LoginResponse) (Answer LoginResponse)
  login v payload = do
    check_limit
        (refused too_many_requests (ascii "Too many login attempts. Please try again later.")) v
    user_option ←
        on_db (ok_of (get_user_by_email (v.conditions get_user_by_email_call) payload.email))
    password_valid ← verify_login user_option payload.password
    reject_invalid v password_valid
    user ← or_return (refused internal_server_error (ascii "Authentication error")) user_option
    tokens ← issue_tokens (refused internal_server_error) v user.id user.email
    reset v
    pure (record {
      status = ok;
      body = record {
        success = true;
        message = ascii "Login successful";
        user = some (record { id = user.id; name = user.name; email = user.email });
      };
      cookies = session_cookies tokens.0 tokens.1;
    })

  -- `if let Some(cookie) = … { let _ = revoke(…).await; }`
  unfoldable pub revoke_access : Condition → Option Text → Program Database AuthError (Unit {0})
  revoke_access c none = pure tt
  revoke_access c (some token) = ignore (revoke_token ext c token)

  -- The name of a refresh cookie that is removed.
  unfoldable pub revoke_refresh : Condition → Option Text → Program Database AuthError (List Text)
  revoke_refresh c none = pure []
  revoke_refresh c (some token) = do
    ignore {E = AuthError} (revoke_refresh_token ext c token)
    pure (refresh_cookie_name ∷ [])

  -- The names of the cookies that are removed; the answer is the redirection to /.
  unfoldable pub logout :
      (Call → Condition) → Option Text → Option Text → Program Database AuthError (List Text)
  logout conditions jwt_cookie refresh_cookie = do
    revoke_access (conditions revoke_token_call) jwt_cookie
    removed ← revoke_refresh (conditions revoke_refresh_token_call) refresh_cookie
    pure (removed ++ cookie_name ∷ [])

  -- `decode_jwt(…).is_ok()`
  abbrev pub is_valid : Decoded → Bool
  is_valid (valid claims) = true
  is_valid expired = false
  is_valid invalid = false

  unfoldable pub verify_auth : Time → Option Text → Bool
  verify_auth now none = false
  verify_auth now (some token) = is_valid (decode_jwt ext token config now)
