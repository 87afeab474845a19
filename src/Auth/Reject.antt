-- ===== src/Auth/Reject.antt =====
-- src/auth.rs: the extractor on tokens that are revoked.
use invoices_contracts.Base.{
  ◌≡◌, refl, ◌⊎◌, inl, inr, true, false, List, [], ◌∷◌, none, some, arith, Text, text_eq, any, find,
  Bool-cases,
}
use invoices_contracts.RateLimit.{Time}
use invoices_contracts.Models.{JwtToken, RefreshToken, Claims}
use invoices_contracts.Database.{Database}
use invoices_contracts.Database.Accounts.{is_jwt}
use invoices_contracts.Program.{Try, value, stop, Program, return_early, or_return}
use invoices_contracts.Program.Rules.{
  run-bind, stop-bind, map_err-value, map_err-stop, ok_of-value, ok_of-stop,
}
use invoices_contracts.Auth.Config.{JwtConfig, cookie_name, refresh_cookie_name}
use invoices_contracts.Auth.Store.{
  AuthError, Services, Condition, fine, no_connection, query_error, Decoded, valid, expired,
  invalid, access, is_jwt_revoked, get_valid_refresh_token, decode_jwt, hash_token,
  is_valid_refresh, get_valid_refresh_token_call, is_jwt_revoked_call,
}
use invoices_contracts.Auth.Cookies.{AuthUser, extract_cookie}
use invoices_contracts.Auth.Extract.{
  Redirect, login_page, Parts, accept_jwt, refresh, authenticate, from_request_parts,
}
use invoices_contracts.Auth.Dead.{IsDead, live_jwt, live_refresh}

find_jwt-revoked :
    (h : Text) (ts : List JwtToken)
    → any (is_jwt h) ts ≡ true
    → any (live_jwt h) ts ≡ false
    → (row : JwtToken) × (find (is_jwt h) ts ≡ some row) × (row.revoked ≡ true)
find_jwt-revoked h [] a r = absurd (ground arith)
find_jwt-revoked h (t ∷ ts) a r = elim (Bool-cases (is_jwt h t)) [
  | inl here ↦ (t, ground arith, ground arith)
  | inr there ↦
      let (row, found, revoked) = find_jwt-revoked h ts (ground arith) (ground arith) in
      (row, ground arith, revoked)
]

find_refresh-none :
    (ext : Services) (raw : Text) (now : Time) (ts : List RefreshToken)
    → any (live_refresh (hash_token ext raw)) ts ≡ false
    → find (is_valid_refresh ext raw now) ts ≡ none
find_refresh-none ext raw now [] r = refl
find_refresh-none ext raw now (t ∷ ts) r = ground (arith, find_refresh-none ext raw now ts)

-- A refresh token none of whose rows is live.
module _ (ext : Services) (config : JwtConfig) (raw : Text) (db : Database)
    (r : any (live_refresh (hash_token ext raw)) db.refresh_tokens ≡ false) where
  get_valid-dead :
      (c : Condition) (now : Time)
      → (get_valid_refresh_token ext c now raw db ≡ (value none, db))
        ⊎ ((e : AuthError) × (get_valid_refresh_token ext c now raw db ≡ (stop e, db)))
  unfolding get_valid_refresh_token access
  get_valid-dead fine now =
      let none_valid = find_refresh-none ext raw now db.refresh_tokens r in inl (ground arith)
  get_valid-dead (no_connection t) now = inr (_, refl)
  get_valid-dead (query_error t) now = inr (_, refl)

  pub refresh-dead :
      (parts : Parts) → refresh ext config parts (some raw) db ≡ (stop login_page, db)
  unfolding refresh or_return
  refresh-dead parts =
      run-bind _ _ db db raw _ refl
        (elim (get_valid-dead (parts.conditions get_valid_refresh_token_call) parts.looked_up_at) [
          | inl found ↦
              run-bind _ _ db db (some none) _ (ok_of-value _ db db none found)
                (stop-bind _ _ db db login_page refl)
          | inr (e, failed) ↦
              run-bind _ _ db db none _ (ok_of-stop _ db db e failed)
                (stop-bind _ _ db db login_page refl)
        ])

module _ (ext : Services) (config : JwtConfig) (token raw : Text) (db : Database)
    (d : IsDead (hash_token ext token) (hash_token ext raw) db) where
  is_jwt_revoked-dead :
      (c : Condition)
      → (is_jwt_revoked ext c token db ≡ (value true, db))
        ⊎ ((e : AuthError) × (is_jwt_revoked ext c token db ≡ (stop e, db)))
  unfolding is_jwt_revoked access
  is_jwt_revoked-dead fine =
      let (row, found, revoked) = find_jwt-revoked _ db.jwt_tokens d.jwt_stored d.jwt_revoked in
      inl (ground arith)
  is_jwt_revoked-dead (no_connection t) = inr (_, refl)
  is_jwt_revoked-dead (query_error t) = inr (_, refl)

  accept_jwt-dead :
      (parts : Parts) (claims : Claims)
      → accept_jwt ext config parts token claims db ≡ (stop login_page, db)
  unfolding accept_jwt return_early
  accept_jwt-dead parts claims = elim (is_jwt_revoked-dead (parts.conditions is_jwt_revoked_call)) [
    | inl revoked ↦ run-bind _ _ db db true _ (map_err-value _ db db _ true revoked) refl
    | inr (e, failed) ↦ stop-bind _ _ db db login_page (map_err-stop _ db db _ e failed)
  ]

  pub authenticate-dead :
      (parts : Parts)
      → authenticate ext config parts (some token) (some raw) db ≡ (stop login_page, db)
  unfolding authenticate return_early
  authenticate-dead parts = go (decode_jwt ext token config parts.decoded_at)
    where
      go :
          (o : Decoded)
          → ◌≡◌ {A = Try Redirect AuthUser × Database}
              ((elim o as (λ o. Program Database Redirect AuthUser) [
                | valid claims ↦ accept_jwt ext config parts token claims
                | expired ↦ refresh ext config parts (some raw)
                | invalid ↦ return_early login_page
              ])
                db)
              (stop login_page, db)
      go (valid claims) = accept_jwt-dead parts claims
      go expired = refresh-dead ext config raw db d.refresh_revoked parts
      go invalid = refl

  -- The extractor on a request that carries both tokens as cookies.
  pub from_request_parts-dead :
      (parts : Parts)
      → extract_cookie parts.cookie cookie_name ≡ some token
      → extract_cookie parts.cookie refresh_cookie_name ≡ some raw
      → from_request_parts ext config parts db ≡ (stop login_page, db)
  unfolding from_request_parts
  from_request_parts-dead parts jwt refresh_token =
      rw (jwt, refresh_token, from_request_parts) (authenticate-dead parts)
