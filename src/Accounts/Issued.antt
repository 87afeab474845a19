-- ===== src/Accounts/Issued.antt =====
-- src/handlers/auth.rs: what `issue_tokens`, the end of a login and of a setup, leaves in the store.
use invoices_contracts.Base.{
  ◌≡◌, refl, sym, ap, ◌∙◌, true, false, Bool-cases, inl, inr, List, [], ◌∷◌, ◌++◌, some, arith,
  Text, text_eq, any, find, ==_refl,
}
use invoices_contracts.Base.Int.{ℤ}
use invoices_contracts.Models.{JwtToken, CreateJwtToken, RefreshToken, CreateRefreshToken}
use invoices_contracts.Database.{Database}
use invoices_contracts.Database.Accounts.{
  is_jwt, is_refresh, insert_jwt, insert_refresh, jwt_row, refresh_row,
}
use invoices_contracts.Server.{Server}
use invoices_contracts.Program.{Program, value, pure}
use invoices_contracts.Program.Rules.{split_bind, map_err-inv, or_return-inv, subst-pure}
use invoices_contracts.Auth.Config.{JwtConfig}
use invoices_contracts.Auth.Store.{
  Services, insertion, store_jwt, store_refresh_token, generate_jwt, generate_refresh_token,
  hash_token,
}
use invoices_contracts.Auth.Dead.{access-inv}
use invoices_contracts.Accounts.Replies.{Answer, Visit, on_db}
use invoices_contracts.Accounts.Login.{issue_tokens}

pub on_db-inv :
    {E A : Type 0} (m : Program Database E A) (s t : Server) (a : A)
    → on_db m s ≡ (value a, t)
    → m s.db ≡ (value a, t.db)
unfolding on_db
on_db-inv m s t a h = ap (λ r. (r.0, r.1.db)) h

find_jwt-append :
    (h : Text) (row : JwtToken) (ts : List JwtToken)
    → any (is_jwt h) ts ≡ false
    → is_jwt h row ≡ true
    → find (is_jwt h) (ts ++ row ∷ []) ≡ some row
find_jwt-append h row [] n e = ground arith
find_jwt-append h row (t ∷ ts) n e = ground (arith, find_jwt-append h row ts)

find_refresh-append :
    (h : Text) (row : RefreshToken) (ts : List RefreshToken)
    → any (is_refresh h) ts ≡ false
    → is_refresh h row ≡ true
    → find (is_refresh h) (ts ++ row ∷ []) ≡ some row
find_refresh-append h row [] n e = ground arith
find_refresh-append h row (t ∷ ts) n e = ground (arith, find_refresh-append h row ts)

-- A session of a user: its two tokens, and their rows in the store, which nothing has revoked.
pub record IsSession (ext : Services) (config : JwtConfig) (v : Visit) (user_id : ℤ) (email : Text)
    (token raw : Text) (db : Database) : Type 0 where
  pub signed : generate_jwt ext user_id email config v.issued_at ≡ some token
  pub random : raw ≡ generate_refresh_token ext v.bytes
  pub jwt : JwtToken
  pub jwt_found : find (is_jwt (hash_token ext token)) db.jwt_tokens ≡ some jwt
  pub jwt_of : jwt.user_id ≡ user_id
  pub jwt_live : jwt.revoked ≡ false
  pub refresh : RefreshToken
  pub refresh_found : find (is_refresh (hash_token ext raw)) db.refresh_tokens ≡ some refresh
  pub refresh_of : refresh.user_id ≡ user_id
  pub refresh_live : refresh.revoked ≡ false

-- Insertions that succeed.
module _ (s t : Database) (a : Unit {0}) where
  insert_jwt-inv :
      (new : CreateJwtToken)
      → insertion (insert_jwt new s) s ≡ (value a, t)
      → (find (is_jwt new.token_hash) t.jwt_tokens ≡ some (jwt_row s.next_jwt new))
        × (t.refresh_tokens ≡ s.refresh_tokens)
        × (t.users ≡ s.users)
  unfolding insertion insert_jwt
  insert_jwt-inv new h = elim (Bool-cases (any (is_jwt new.token_hash) s.jwt_tokens)) [
    | inl taken ↦ absurd (ground arith)
    | inr free ↦
        let row = jwt_row s.next_jwt new in
        let rows : t.jwt_tokens ≡ s.jwt_tokens ++ row ∷ [] = ground arith in
        (
          ap (find (is_jwt new.token_hash)) rows
              ∙ find_jwt-append new.token_hash row s.jwt_tokens free (==_refl new.token_hash),
          ground arith,
          ground arith,
        )
  ]

  insert_refresh-inv :
      (new : CreateRefreshToken)
      → insertion (insert_refresh new s) s ≡ (value a, t)
      → (find (is_refresh new.token_hash) t.refresh_tokens ≡ some (refresh_row s.next_refresh new))
        × (t.jwt_tokens ≡ s.jwt_tokens)
        × (t.users ≡ s.users)
  unfolding insertion insert_refresh
  insert_refresh-inv new h = elim (Bool-cases (any (is_refresh new.token_hash) s.refresh_tokens)) [
    | inl taken ↦ absurd (ground arith)
    | inr free ↦
        let row = refresh_row s.next_refresh new in
        let rows : t.refresh_tokens ≡ s.refresh_tokens ++ row ∷ [] = ground arith in
        (
          ap (find (is_refresh new.token_hash)) rows
              ∙ find_refresh-append new.token_hash row s.refresh_tokens free
                  (==_refl new.token_hash),
          ground arith,
          ground arith,
        )
  ]

pub issue_tokens-inv :
    {B : Type 0} (ext : Services) (config : JwtConfig) (e : Text → Answer B) (v : Visit) (id : ℤ)
    (email : Text) (s t : Server) (tokens : Text × Text)
    → issue_tokens ext config e v id email s ≡ (value tokens, t)
    → IsSession ext config v id email tokens.0 tokens.1 t.db × (t.db.users ≡ s.db.users)
unfolding issue_tokens store_jwt store_refresh_token pure
issue_tokens-inv ext config e v id email s t tokens h =
    split_bind _ _ s t tokens h (λ token s1 signs h1.
      split_bind _ _ s1 t tokens h1 (λ u s2 stores h2.
        split_bind _ _ s2 t tokens h2 (λ w s3 refreshes h3.
          let (signed, same) = or_return-inv _ _ s s1 token signs in
          let (found, kept, users) =
            insert_jwt-inv _ _ u _
              (access-inv _ _ _ _ u (map_err-inv _ _ _ _ u (on_db-inv _ s1 s2 u stores))) in
          let (found', kept', users') =
            insert_refresh-inv _ _ w _
              (access-inv _ _ _ _ w (map_err-inv _ _ _ _ w (on_db-inv _ s2 s3 w refreshes))) in
          subst-pure
            (λ x u. IsSession ext config v id email x.0 x.1 u.db × (u.db.users ≡ s.db.users)) _
            tokens s3 t h3
            (
              record {
                signed = signed;
                random = refl;
                jwt = _;
                refresh = _;
                jwt_found = ap (find (is_jwt (hash_token ext token))) kept' ∙ found;
                jwt_of = refl;
                jwt_live = refl;
                refresh_found = found';
                refresh_of = refl;
                refresh_live = refl;
              },
              users' ∙ users ∙ ap (λ x. x.db.users) (sym same),
            ))))
