-- ===== src/Accounts/LoggedOut.antt =====
-- src/auth.rs and src/handlers/auth.rs: the tokens of a session after `logout`.
use invoices_contracts.Base.{◌≡◌, sym, true, arith, some, Text, any, subst}
use invoices_contracts.Database.{Database}
use invoices_contracts.Database.Accounts.{is_jwt, is_refresh, revoke_jwt_rows, revoke_refresh_rows}
use invoices_contracts.Program.{◌>>=◌, ignore}
use invoices_contracts.Auth.Config.{JwtConfig}
use invoices_contracts.Auth.Store.{
  Services, Condition, fine, Call, revoke_token_call, revoke_refresh_token_call, hash_token, access,
  revoke_token, revoke_refresh_token,
}
use invoices_contracts.Auth.Dead.{IsDead, revoke_both-IsDead}
use invoices_contracts.Accounts.Login.{logout, revoke_access, revoke_refresh}

module _ (ext : Services) (config : JwtConfig) where
  -- Revocations that do not fail.
  logout-revokes :
      (conditions : Call → Condition) (token raw : Text) (db : Database)
      → conditions revoke_token_call ≡ fine
      → conditions revoke_refresh_token_call ≡ fine
      → (logout ext config conditions (some token) (some raw) db).1
        ≡ revoke_refresh_rows (hash_token ext raw) (revoke_jwt_rows (hash_token ext token) db)
  unfolding logout revoke_access revoke_refresh ignore revoke_token revoke_refresh_token access
      ◌>>=◌
  logout-revokes conditions token raw db a r = ground arith

  -- Both tokens of a logout are dead behind it.
  pub logout-IsDead :
      (conditions : Call → Condition) (token raw : Text) (db : Database)
      → conditions revoke_token_call ≡ fine
      → conditions revoke_refresh_token_call ≡ fine
      → any (is_jwt (hash_token ext token)) db.jwt_tokens ≡ true
      → any (is_refresh (hash_token ext raw)) db.refresh_tokens ≡ true
      → IsDead
          (hash_token ext token)
          (hash_token ext raw)
          (logout ext config conditions (some token) (some raw) db).1
  logout-IsDead conditions token raw db a r stored stored_refresh =
      subst (IsDead (hash_token ext token) (hash_token ext raw))
        (sym (logout-revokes conditions token raw db a r))
        (revoke_both-IsDead (hash_token ext token) (hash_token ext raw) db stored stored_refresh)
