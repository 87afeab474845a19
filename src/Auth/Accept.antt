-- ===== src/Auth/Accept.antt =====
-- src/auth.rs: what stands behind a request that the extractor lets through.
use invoices_contracts.Base.{◌≡◌, false, Option, some, Text, find}
use invoices_contracts.Models.{User, Claims, JwtToken, RefreshToken}
use invoices_contracts.Database.{Database}
use invoices_contracts.Database.Accounts.{is_user, is_jwt}
use invoices_contracts.Program.{Program}
use invoices_contracts.Auth.Config.{JwtConfig, cookie_name, refresh_cookie_name}
use invoices_contracts.Auth.Store.{Services, valid, is_valid_refresh, decode_jwt, hash_token}
use invoices_contracts.Auth.Cookies.{AuthUser, extract_cookie, extract_bearer}
use invoices_contracts.Auth.Extract.{Parts, or_else}

module _ (ext : Services) (config : JwtConfig) (parts : Parts) where
  -- The token of the request, read as the extractor reads it.
  abbrev presented : Option Text
  presented = or_else (extract_cookie parts.cookie cookie_name) (extract_bearer parts.authorization)

  -- A valid access token whose row is not revoked, or a valid refresh token with the row of its user.
  pub data IsAuthentic (db : Database) (user : AuthUser) : Type 0 where
    by_jwt :
        (token : Text) (claims : Claims) (row : JwtToken)
        → presented ≡ some token
        → decode_jwt ext token config parts.decoded_at ≡ valid claims
        → find (is_jwt (hash_token ext token)) db.jwt_tokens ≡ some row
        → row.revoked ≡ false
        → user.email ≡ claims.email
        → IsAuthentic db user
    by_refresh :
        (raw : Text) (row : RefreshToken) (owner : User)
        → extract_cookie parts.cookie refresh_cookie_name ≡ some raw
        → find (is_valid_refresh ext raw parts.looked_up_at) db.refresh_tokens ≡ some row
        → find (is_user row.user_id) db.users ≡ some owner
        → user.email ≡ owner.email
        → IsAuthentic db user
