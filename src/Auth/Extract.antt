-- ===== src/Auth/Extract.antt =====
-- src/auth.rs: the extractor `AuthUser`, which every protected handler runs first. Its rejection,
-- the redirection to /login, is `login_page`.
use invoices_contracts.Base.{Option, none, some, Text, if◌then◌else◌}
use invoices_contracts.Base.Int.{ℤ}
use invoices_contracts.RateLimit.{Time}
use invoices_contracts.Models.{Claims}
use invoices_contracts.Database.{Database}
use invoices_contracts.Program.{
  Program, pure, return_early, or_return, ◌>>=◌, ◌>>◌, ok_of, map_err, ignore,
}
use invoices_contracts.Auth.Config.{JwtConfig, cookie_name, refresh_cookie_name}
use invoices_contracts.Auth.Store.{
  Services, Condition, Call, is_jwt_revoked_call, get_valid_refresh_token_call, get_user_by_id_call,
  store_jwt_call, revoke_refresh_token_call, store_refresh_token_call, valid, expired, invalid,
  generate_jwt, decode_jwt, store_jwt, is_jwt_revoked, generate_refresh_token, store_refresh_token,
  get_valid_refresh_token, revoke_refresh_token, get_user_by_id,
}
use invoices_contracts.Auth.Cookies.{AuthUser, extract_cookie, extract_bearer}

pub data Redirect : Type 0 where
  login_page : Redirect

-- The two headers, the readings of the clock, the random bytes of a new refresh token, and how the
-- database answers.
pub record Parts : Type 0 where
  pub cookie : Option Text
  pub authorization : Option Text
  pub decoded_at : Time
  pub looked_up_at : Time
  pub issued_at : Time
  pub jwt_stored_at : Time
  pub refresh_stored_at : Time
  pub bytes : Text
  pub conditions : Call → Condition

abbrev pub or_else : Option Text → Option Text → Option Text
or_else none other = other
or_else (some t) other = some t

-- `.await.ok().flatten()`
abbrev pub flatten : Option (Option (ℤ × ℤ)) → Option (ℤ × ℤ)
flatten none = none
flatten (some found) = found

module _ (ext : Services) (config : JwtConfig) where
  -- A token whose signature and expiry are valid is let through if it is not revoked.
  unfoldable pub accept_jwt : Parts → Text → Claims → Program Database Redirect AuthUser
  accept_jwt parts token claims = do
    revoked ←
        map_err (λ e. login_page) (is_jwt_revoked ext (parts.conditions is_jwt_revoked_call) token)
    if revoked
        then return_early login_page
        else pure (record { email = claims.email; refreshed_tokens = none })

  -- The refresh path: new tokens for the user of a valid refresh token, which is revoked.
  unfoldable pub refresh : Parts → Option Text → Program Database Redirect AuthUser
  refresh parts refresh_token_raw = do
    refresh_raw ← or_return login_page refresh_token_raw
    found ← ok_of (
        get_valid_refresh_token ext (parts.conditions get_valid_refresh_token_call)
          parts.looked_up_at refresh_raw)
    row ← or_return login_page (flatten found)
    user ← map_err (λ e. login_page) (get_user_by_id (parts.conditions get_user_by_id_call) row.1)
    new_jwt ← or_return login_page (generate_jwt ext user.id user.email config parts.issued_at)
    map_err (λ e. login_page)
        (store_jwt ext (parts.conditions store_jwt_call) config parts.jwt_stored_at user.id new_jwt)
    ignore (revoke_refresh_token ext (parts.conditions revoke_refresh_token_call) refresh_raw)
    map_err (λ e. login_page)
        (store_refresh_token ext (parts.conditions store_refresh_token_call) config
          parts.refresh_stored_at user.id (generate_refresh_token ext parts.bytes))
    pure (record {
      email = user.email;
      refreshed_tokens = some (record {
        new_jwt = new_jwt;
        new_refresh_token = generate_refresh_token ext parts.bytes;
      });
    })

  -- The extractor behind the reading of the headers.
  unfoldable pub authenticate :
      Parts → Option Text → Option Text → Program Database Redirect AuthUser
  authenticate parts none refresh_token_raw = refresh parts refresh_token_raw
  authenticate parts (some token) refresh_token_raw =
      elim (decode_jwt ext token config parts.decoded_at) [
        | valid claims ↦ accept_jwt parts token claims
        | expired ↦ refresh parts refresh_token_raw
        | invalid ↦ return_early login_page
      ]

  unfoldable pub from_request_parts : Parts → Program Database Redirect AuthUser
  from_request_parts parts =
      authenticate parts
        (or_else (extract_cookie parts.cookie cookie_name) (extract_bearer parts.authorization))
        (extract_cookie parts.cookie refresh_cookie_name)
