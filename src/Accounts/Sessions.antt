-- ===== src/Accounts/Sessions.antt =====
-- src/handlers/auth.rs and src/auth.rs: a request with the cookies of a session that was just opened.
use invoices_contracts.Base.{
  ◌≡◌, refl, ◌+◌, ◌*◌, ◌/◌, true, false, Option, none, some, arith, Text, ltb,
}
use invoices_contracts.Base.Int.{ℤ}
use invoices_contracts.RateLimit.{Time}
use invoices_contracts.Models.{Claims}
use invoices_contracts.Database.{Database}
use invoices_contracts.Server.{Server}
use invoices_contracts.Program.{value, pure}
use invoices_contracts.Program.Rules.{run-bind, map_err-value}
use invoices_contracts.Auth.Config.{JwtConfig, cookie_name, expiry_seconds}
use invoices_contracts.Auth.Store.{
  Services, Condition, fine, valid, is_jwt_revoked_call, access, is_jwt_revoked, generate_jwt,
  decode_jwt, second,
}
use invoices_contracts.Auth.Cookies.{extract_cookie}
use invoices_contracts.Auth.Extract.{Parts, accept_jwt, authenticate, from_request_parts}
use invoices_contracts.Accounts.Replies.{Answer, Visit}
use invoices_contracts.Accounts.Login.{issue_tokens}
use invoices_contracts.Accounts.Issued.{IsSession, issue_tokens-inv}

-- The crate jsonwebtoken: what `encode` signs, `decode` reads with the same secret until it expires.
abbrev pub Decodes : Services → Type 0
Decodes ext =
    (secret token : Text) (claims : Claims) (now : Time)
    → ext.encode secret claims ≡ some token
    → ltb (now / second) claims.exp ≡ true
    → ext.decode secret token now ≡ valid claims

module _ (ext : Services) (config : JwtConfig) where
  is_jwt_revoked-live :
      (c : Condition) (v : Visit) (id : ℤ) (email token raw : Text) (db : Database)
      → c ≡ fine
      → IsSession ext config v id email token raw db
      → is_jwt_revoked ext c token db ≡ (value false, db)
  unfolding is_jwt_revoked access
  is_jwt_revoked-live c v id email token raw db works session =
      ground (arith, session.jwt_found, session.jwt_live)

  accept_jwt-live :
      (v : Visit) (id : ℤ) (email token raw : Text) (db : Database) (parts : Parts)
      (claims : Claims)
      → IsSession ext config v id email token raw db
      → parts.conditions is_jwt_revoked_call ≡ fine
      → accept_jwt ext config parts token claims db
        ≡ (value (record { email = claims.email; refreshed_tokens = none }), db)
  unfolding accept_jwt pure
  accept_jwt-live v id email token raw db parts claims session works =
      run-bind _ _ db db false _
        (map_err-value _ db db _ false
          (is_jwt_revoked-live _ v id email token raw db works session))
        refl

  authenticate-live :
      (v : Visit) (id : ℤ) (email token raw : Text) (db : Database) (parts : Parts)
      (other : Option Text)
      → Decodes ext
      → IsSession ext config v id email token raw db
      → ltb (parts.decoded_at / second) ((v.issued_at + expiry_seconds config * second) / second)
        ≡ true
      → parts.conditions is_jwt_revoked_call ≡ fine
      → authenticate ext config parts (some token) other db
        ≡ (value (record { email = email; refreshed_tokens = none }), db)
  unfolding authenticate generate_jwt decode_jwt
  authenticate-live v id email token raw db parts other decodes session early works =
      rw (decodes config.secret token _ parts.decoded_at session.signed early, authenticate)
        (accept_jwt-live v id email token raw db parts _ session works)

  session-authenticated :
      (v : Visit) (id : ℤ) (email token raw : Text) (db : Database) (parts : Parts)
      → Decodes ext
      → IsSession ext config v id email token raw db
      → extract_cookie parts.cookie cookie_name ≡ some token
      → ltb (parts.decoded_at / second) ((v.issued_at + expiry_seconds config * second) / second)
        ≡ true
      → parts.conditions is_jwt_revoked_call ≡ fine
      → from_request_parts ext config parts db
        ≡ (value (record { email = email; refreshed_tokens = none }), db)
  unfolding from_request_parts
  session-authenticated v id email token raw db parts decodes session cookie early works =
      rw (cookie, from_request_parts)
        (authenticate-live v id email token raw db parts _ decodes session early works)

  -- A request with the access token that `issue_tokens` has just stored is let through, as the
  -- user of the token, until the token expires. The look-up of the token does not fail, and the
  -- library decodes what it encoded.
  pub opened_session_authenticates :
      {B : Type 0} (e : Text → Answer B) (v : Visit) (id : ℤ) (email : Text) (s t : Server)
      (tokens : Text × Text) (parts : Parts)
      → Decodes ext
      → issue_tokens ext config e v id email s ≡ (value tokens, t)
      → extract_cookie parts.cookie cookie_name ≡ some tokens.0
      → ltb (parts.decoded_at / second) ((v.issued_at + expiry_seconds config * second) / second)
        ≡ true
      → parts.conditions is_jwt_revoked_call ≡ fine
      → from_request_parts ext config parts t.db
        ≡ (value (record { email = email; refreshed_tokens = none }), t.db)
  opened_session_authenticates e v id email s t tokens parts decodes issued cookie early works =
      session-authenticated v id email tokens.0 tokens.1 t.db parts decodes
        (issue_tokens-inv ext config e v id email s t tokens issued).0 cookie early works
