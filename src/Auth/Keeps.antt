-- ===== src/Auth/Keeps.antt =====
-- src/auth.rs: the extractor keeps what no write to the tokens breaks.
use invoices_contracts.Base.{Option, none, some, Text}
use invoices_contracts.Models.{Claims}
use invoices_contracts.Database.{Database}
use invoices_contracts.Program.{Program, return_early}
use invoices_contracts.Program.Rules.{Preserves, preserves_rules, Preserves-return_early}
use invoices_contracts.Auth.Config.{JwtConfig}
use invoices_contracts.Auth.Store.{Services, Decoded, valid, expired, invalid, decode_jwt}
use invoices_contracts.Auth.Cookies.{AuthUser}
use invoices_contracts.Auth.Extract.{
  Redirect, login_page, Parts, accept_jwt, refresh, authenticate, from_request_parts,
}
use invoices_contracts.Auth.Stable.{
  TokenStable, store_jwt-Preserves, store_refresh_token-Preserves, revoke_token-Preserves,
  revoke_refresh_token-Preserves, is_jwt_revoked-Preserves, get_valid_refresh_token-Preserves,
  get_user_by_email-Preserves, get_user_by_id-Preserves, user_exists-Preserves,
}

pub ruleset store_rules = (
  store_jwt-Preserves, store_refresh_token-Preserves, revoke_token-Preserves,
  revoke_refresh_token-Preserves, is_jwt_revoked-Preserves, get_valid_refresh_token-Preserves,
  get_user_by_email-Preserves, get_user_by_id-Preserves, user_exists-Preserves,
)

module _ (P : Database → Type 0) (st : TokenStable P) (ext : Services) (config : JwtConfig) where
  accept_jwt-Preserves :
      (parts : Parts) (token : Text) (claims : Claims)
      → Preserves P (accept_jwt ext config parts token claims)
  unfolding accept_jwt
  accept_jwt-Preserves parts token claims = search (preserves_rules, store_rules) depth 10

  refresh-Preserves :
      (parts : Parts) (raw : Option Text) → Preserves P (refresh ext config parts raw)
  unfolding refresh
  refresh-Preserves parts raw = search (preserves_rules, store_rules) depth 30

  authenticate-Preserves :
      (parts : Parts) (token raw : Option Text)
      → Preserves P (authenticate ext config parts token raw)
  unfolding authenticate
  authenticate-Preserves parts none raw = refresh-Preserves parts raw
  authenticate-Preserves parts (some token) raw = go (decode_jwt ext token config parts.decoded_at)
    where
      go :
          (o : Decoded)
          → Preserves P (elim o as (λ o. Program Database Redirect AuthUser) [
            | valid claims ↦ accept_jwt ext config parts token claims
            | expired ↦ refresh ext config parts raw
            | invalid ↦ return_early login_page
          ])
      go (valid claims) = accept_jwt-Preserves parts token claims
      go expired = refresh-Preserves parts raw
      go invalid = Preserves-return_early P login_page

  pub from_request_parts-Preserves :
      (parts : Parts) → Preserves P (from_request_parts ext config parts)
  unfolding from_request_parts
  from_request_parts-Preserves parts = authenticate-Preserves parts _ _
