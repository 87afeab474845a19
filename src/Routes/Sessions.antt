-- ===== src/Routes/Sessions.antt =====
-- src/main.rs and src/auth.rs: the tokens of a session, over all sequences of requests to all
-- routes.
use invoices_contracts.Base.{
  ◌≡◌, refl, sym, ap, ◌∙◌, true, List, ◌∷◌, none, some, arith, Text, text_eq, any, subst,
}
use invoices_contracts.Database.{Database}
use invoices_contracts.Database.Accounts.{
  is_jwt, is_refresh, insert_jwt, revoke_jwt_rows, revoke_refresh_rows, insert_user,
  update_user_row,
}
use invoices_contracts.Server.{Server}
use invoices_contracts.Program.{value, stop}
use invoices_contracts.Auth.Store.{
  Condition, fine, Call, revoke_token_call, revoke_refresh_token_call, hash_token, expired,
  decode_jwt,
}
use invoices_contracts.Auth.Config.{cookie_name, refresh_cookie_name}
use invoices_contracts.Auth.Cookies.{AuthUser, extract_cookie, extract_bearer}
use invoices_contracts.Auth.Extract.{
  login_page, Parts, or_else, refresh, authenticate, from_request_parts,
}
use invoices_contracts.Auth.Dead.{
  IsDead, IsDead-Stable, any_refresh-retire, live_refresh, live_refresh-retire,
}
use invoices_contracts.Auth.Reject.{from_request_parts-dead, refresh-dead}
use invoices_contracts.Auth.Rotate.{IsUsed, insert_refresh-IsUsed, refresh-IsUsed}
use invoices_contracts.Accounts.Replies.{on_db}
use invoices_contracts.Accounts.Login.{logout}
use invoices_contracts.Accounts.LoggedOut.{logout-IsDead}
use invoices_contracts.Routes.{
  Environment, Request, public, protected, Protected, any_logout, Reply, sent_away, respond,
  respond_db, serve_public, serve, serve_user, serve_all,
}
use invoices_contracts.Routes.Keeps.{OfAccounts, serve_all-kept, serve_user-kept}
use invoices_contracts.Routes.Upholds.{answered-kept}

IsDead-OfAccounts : (h k : Text) → OfAccounts (IsDead h k)
IsDead-OfAccounts h k = record {
  stable = IsDead-Stable h k;
  aside = λ before after same d. record {
    jwt_stored = ap (any (is_jwt h)) same.jwt_tokens ∙ d.jwt_stored;
    jwt_revoked = rw same.jwt_tokens d.jwt_revoked;
    refresh_stored = ap (any (is_refresh k)) same.refresh_tokens ∙ d.refresh_stored;
    refresh_revoked = rw same.refresh_tokens d.refresh_revoked;
  };
}

IsUsed-OfAccounts : (k : Text) → OfAccounts (λ db. IsUsed k db.refresh_tokens)
unfolding insert_jwt revoke_jwt_rows revoke_refresh_rows insert_user update_user_row
IsUsed-OfAccounts k = record {
  stable = record {
    tokens = record {
      insert_jwt_kept = λ new db after d e. ground (arith, d.stored, d.retired);
      insert_refresh_kept = insert_refresh-IsUsed k;
      revoke_jwt_kept = λ hash db d. d;
      revoke_refresh_kept = λ hash db d. record {
        stored = any_refresh-retire k hash db.refresh_tokens ∙ d.stored;
        retired = live_refresh-retire k hash db.refresh_tokens d.retired;
      };
    };
    insert_user_kept = λ new db after id d e. ground (arith, d.stored, d.retired);
    update_user_kept = λ id email f db after d e. ground (arith, d.stored, d.retired);
  };
  aside = λ before after same d. record {
    stored = ap (any (is_refresh k)) same.refresh_tokens ∙ d.stored;
    retired = ap (any (live_refresh k)) same.refresh_tokens ∙ d.retired;
  };
}

module _ {D V F : Type 0} (env : Environment D V F) where
  served-rejected :
      (parts : Parts) (r : Protected) (s : Server)
      → from_request_parts env.services env.config parts s.db ≡ (stop login_page, s.db)
      → serve env (protected parts r) s ≡ (sent_away login_page, s)
  unfolding serve on_db
  served-rejected parts r s h =
      ap
        (λ f. elim (f.0) as (λ o. Reply D × Server) [
          | value user ↦ serve_user env r user (record s { db = f.1 })
          | stop e ↦ (sent_away e, record s { db = f.1 })
        ])
        h
      ∙ ground arith

  logout-served :
      (conditions : Call → Condition) (token raw : Text) (s : Server)
      → conditions revoke_token_call ≡ fine
      → conditions revoke_refresh_token_call ≡ fine
      → any (is_jwt (hash_token env.services token)) s.db.jwt_tokens ≡ true
      → any (is_refresh (hash_token env.services raw)) s.db.refresh_tokens ≡ true
      → IsDead
          (hash_token env.services token)
          (hash_token env.services raw)
          (serve env (public (any_logout conditions (some token) (some raw))) s).1.db
  unfolding serve serve_public respond_db respond on_db
  logout-served conditions token raw s a r stored stored_refresh =
      answered-kept (IsDead _ _) _ _
        (on_db (logout env.services env.config conditions (some token) (some raw)) s)
        (logout-IsDead env.services env.config conditions token raw s.db a r stored stored_refresh)

  -- After a logout with the cookies of a session whose tokens are stored, whatever requests follow
  -- to whatever routes, a request to a protected route with both cookies is sent to the login page
  -- and changes nothing. The two revocations do not fail.
  pub logged_out_of_every_route :
      (conditions : Call → Condition) (token raw : Text) (s : Server) (later : List Request)
      (parts : Parts) (r : Protected)
      → conditions revoke_token_call ≡ fine
      → conditions revoke_refresh_token_call ≡ fine
      → any (is_jwt (hash_token env.services token)) s.db.jwt_tokens ≡ true
      → any (is_refresh (hash_token env.services raw)) s.db.refresh_tokens ≡ true
      → extract_cookie parts.cookie cookie_name ≡ some token
      → extract_cookie parts.cookie refresh_cookie_name ≡ some raw
      → let end =
          serve_all env (public (any_logout conditions (some token) (some raw)) ∷ later) s in
        serve env (protected parts r) end ≡ (sent_away login_page, end)
  unfolding serve_all
  logged_out_of_every_route conditions token raw s later parts r a b stored stored_refresh jwt
        refresh_token =
      served-rejected parts r _ (
        from_request_parts-dead env.services env.config token raw _
          (serve_all-kept _ env (IsDead-OfAccounts _ _) later _
            (logout-served conditions token raw s a b stored stored_refresh))
          parts jwt refresh_token)

  -- No access token, or one that has expired.
  pub data IsLapsed (parts : Parts) : Type 0 where
    no_token :
        or_else (extract_cookie parts.cookie cookie_name) (extract_bearer parts.authorization)
          ≡ none
        → IsLapsed parts
    old_token :
        (token : Text)
        → or_else (extract_cookie parts.cookie cookie_name) (extract_bearer parts.authorization)
          ≡ some token
        → decode_jwt env.services token env.config parts.decoded_at ≡ expired
        → IsLapsed parts

  lapsed-refresh :
      (parts : Parts) (raw : Text) (db : Database)
      → IsLapsed parts
      → extract_cookie parts.cookie refresh_cookie_name ≡ some raw
      → from_request_parts env.services env.config parts db
        ≡ refresh env.services env.config parts (some raw) db
  unfolding from_request_parts authenticate
  lapsed-refresh parts raw db (no_token missing) cookie = rw (missing, cookie) refl
  lapsed-refresh parts raw db (old_token token shown old) cookie =
      rw (shown, authenticate, old, cookie) refl

  pub served-found :
      (parts : Parts) (r : Protected) (s : Server) (user : AuthUser) (db : Database)
      → from_request_parts env.services env.config parts s.db ≡ (value user, db)
      → serve env (protected parts r) s ≡ serve_user env r user (record s { db = db })
  unfolding serve on_db
  served-found parts r s user db h =
      ap
        (λ f. elim (f.0) as (λ o. Reply D × Server) [
          | value user ↦ serve_user env r user (record s { db = f.1 })
          | stop e ↦ (sent_away e, record s { db = f.1 })
        ])
        h

  serve-IsUsed :
      (parts : Parts) (r : Protected) (raw : Text) (s : Server) (user : AuthUser) (db : Database)
      → from_request_parts env.services env.config parts s.db ≡ (value user, db)
      → refresh env.services env.config parts (some raw) s.db ≡ (value user, db)
      → parts.conditions revoke_refresh_token_call ≡ fine
      → IsUsed (hash_token env.services raw) (serve env (protected parts r) s).1.db.refresh_tokens
  serve-IsUsed parts r raw s user db found refreshed works =
      subst (λ p. IsUsed (hash_token env.services raw) p.1.db.refresh_tokens)
        (sym (served-found parts r s user db found))
        (serve_user-kept (λ d. IsUsed (hash_token env.services raw) d.refresh_tokens) env
          (IsUsed-OfAccounts _) parts r user (record s { db = db })
          (refresh-IsUsed env.services env.config parts raw s.db db user refreshed works))

  -- Where a request to a protected route is let through by its refresh token, whatever requests
  -- follow to whatever routes, a request with the same refresh token is sent to the login page and
  -- changes nothing. Neither request has a live access token, and the revocation does not fail.
  pub refresh_spent_for_good :
      (parts again : Parts) (r other : Protected) (raw : Text) (s : Server) (user : AuthUser)
      (db : Database) (later : List Request)
      → IsLapsed parts
      → IsLapsed again
      → extract_cookie parts.cookie refresh_cookie_name ≡ some raw
      → extract_cookie again.cookie refresh_cookie_name ≡ some raw
      → parts.conditions revoke_refresh_token_call ≡ fine
      → from_request_parts env.services env.config parts s.db ≡ (value user, db)
      → let end = serve_all env (protected parts r ∷ later) s in
        serve env (protected again other) end ≡ (sent_away login_page, end)
  unfolding serve_all
  refresh_spent_for_good parts again r other raw s user db later lapsed lapsed_again cookie
        cookie_again works found =
      let refreshed = sym (lapsed-refresh parts raw s.db lapsed cookie) ∙ found in
      let used = serve-IsUsed parts r raw s user db found refreshed works in
      let at_end = serve_all-kept _ env (IsUsed-OfAccounts _) later _ used in
      served-rejected again other _ (
        lapsed-refresh again raw _ lapsed_again cookie_again
        ∙ refresh-dead env.services env.config raw _ at_end.retired again)
