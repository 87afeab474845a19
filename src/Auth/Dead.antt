-- ===== src/Auth/Dead.antt =====
-- src/auth.rs: tokens that are stored and revoked, and the functions that keep them so.
use invoices_contracts.Base.{
  ◌≡◌, refl, ap, ◌∙◌, Bool, true, false, not, ◌&&◌, List, [], ◌∷◌, some, arith, Text, ◌==◌, text_eq,
  nat_eq, any, any-append, Bool-cases, inl, inr, eq_of_==, update,
}
use invoices_contracts.Base.Int.{ℤ}
use invoices_contracts.Models.{
  User, CreateFullUser, JwtToken, CreateJwtToken, RefreshToken, CreateRefreshToken,
}
use invoices_contracts.Database.{Database}
use invoices_contracts.Database.Accounts.{
  is_jwt, is_refresh, revoke, retire, insert_jwt, insert_refresh, jwt_row, refresh_row,
  revoke_jwt_rows, revoke_refresh_rows, insert_user, update_user_row,
}
use invoices_contracts.Auth.Stable.{Stable}
use invoices_contracts.Program.{value, Program}
use invoices_contracts.Auth.Store.{AuthError, Condition, fine, no_connection, query_error, access}

-- A query that returns a value was answered.
pub access-inv :
    {A : Type 0} (c : Condition) (m : Program Database AuthError A) (s t : Database) (a : A)
    → access c m s ≡ (value a, t)
    → m s ≡ (value a, t)
unfolding access
access-inv fine m s t a h = h
access-inv (no_connection e) m s t a h = absurd (ground arith)
access-inv (query_error e) m s t a h = absurd (ground arith)

abbrev pub live_jwt : Text → JwtToken → Bool
live_jwt h t = is_jwt h t && not t.revoked

abbrev pub live_refresh : Text → RefreshToken → Bool
live_refresh k t = is_refresh k t && not t.revoked

-- The hashes `h` and `k` of an access token and a refresh token are stored, as revoked alone.
pub record IsDead (h k : Text) (db : Database) : Type 0 where
  pub jwt_stored : any (is_jwt h) db.jwt_tokens ≡ true
  pub jwt_revoked : any (live_jwt h) db.jwt_tokens ≡ false
  pub refresh_stored : any (is_refresh k) db.refresh_tokens ≡ true
  pub refresh_revoked : any (live_refresh k) db.refresh_tokens ≡ false

any_jwt-revoke :
    (h g : Text) (ts : List JwtToken)
    → any (is_jwt h) (update (is_jwt g) revoke ts) ≡ any (is_jwt h) ts
any_jwt-revoke h g [] = refl
any_jwt-revoke h g (t ∷ ts) = ground (arith, any_jwt-revoke h g ts)

live_jwt-revoke :
    (h g : Text) (ts : List JwtToken)
    → any (live_jwt h) ts ≡ false
    → any (live_jwt h) (update (is_jwt g) revoke ts) ≡ false
live_jwt-revoke h g [] e = refl
live_jwt-revoke h g (t ∷ ts) e = ground (arith, live_jwt-revoke h g ts)

pub live_jwt-revoke_self :
    (h : Text) (ts : List JwtToken) → any (live_jwt h) (update (is_jwt h) revoke ts) ≡ false
live_jwt-revoke_self h [] = refl
live_jwt-revoke_self h (t ∷ ts) = ground (arith, live_jwt-revoke_self h ts)

pub any_refresh-retire :
    (h g : Text) (ts : List RefreshToken)
    → any (is_refresh h) (update (is_refresh g) retire ts) ≡ any (is_refresh h) ts
any_refresh-retire h g [] = refl
any_refresh-retire h g (t ∷ ts) = ground (arith, any_refresh-retire h g ts)

pub live_refresh-retire :
    (h g : Text) (ts : List RefreshToken)
    → any (live_refresh h) ts ≡ false
    → any (live_refresh h) (update (is_refresh g) retire ts) ≡ false
live_refresh-retire h g [] e = refl
live_refresh-retire h g (t ∷ ts) e = ground (arith, live_refresh-retire h g ts)

pub live_refresh-retire_self :
    (h : Text) (ts : List RefreshToken)
    → any (live_refresh h) (update (is_refresh h) retire ts) ≡ false
live_refresh-retire_self h [] = refl
live_refresh-retire_self h (t ∷ ts) = ground (arith, live_refresh-retire_self h ts)

module _ (h k : Text) where
  pub insert_jwt-IsDead :
      (new : CreateJwtToken) (db db' : Database)
      → IsDead h k db
      → insert_jwt new db ≡ some db'
      → IsDead h k db'
  unfolding insert_jwt
  insert_jwt-IsDead new db db' d e = elim (Bool-cases (new.token_hash == h)) [
    | inl same ↦
        let again =
          ap (λ x. any (is_jwt x) db.jwt_tokens) (eq_of_== new.token_hash h same) ∙ d.jwt_stored in
        ground (arith, again)
    | inr other ↦
        let row = jwt_row db.next_jwt new in
        ground (
          arith,
          any-append (is_jwt h) db.jwt_tokens (row ∷ []),
          any-append (live_jwt h) db.jwt_tokens (row ∷ []),
          d.jwt_stored,
          d.jwt_revoked,
          d.refresh_stored,
          d.refresh_revoked,
        )
  ]

  pub insert_refresh-IsDead :
      (new : CreateRefreshToken) (db db' : Database)
      → IsDead h k db
      → insert_refresh new db ≡ some db'
      → IsDead h k db'
  unfolding insert_refresh
  insert_refresh-IsDead new db db' d e = elim (Bool-cases (new.token_hash == k)) [
    | inl same ↦
        let again =
          ap (λ x. any (is_refresh x) db.refresh_tokens) (eq_of_== new.token_hash k same)
          ∙ d.refresh_stored in
        ground (arith, again)
    | inr other ↦
        let row = refresh_row db.next_refresh new in
        ground (
          arith,
          any-append (is_refresh k) db.refresh_tokens (row ∷ []),
          any-append (live_refresh k) db.refresh_tokens (row ∷ []),
          d.jwt_stored,
          d.jwt_revoked,
          d.refresh_stored,
          d.refresh_revoked,
        )
  ]

  pub revoke_jwt_rows-IsDead :
      (g : Text) (db : Database) → IsDead h k db → IsDead h k (revoke_jwt_rows g db)
  unfolding revoke_jwt_rows
  revoke_jwt_rows-IsDead g db d = record {
    jwt_stored = any_jwt-revoke h g db.jwt_tokens ∙ d.jwt_stored;
    jwt_revoked = live_jwt-revoke h g db.jwt_tokens d.jwt_revoked;
    refresh_stored = d.refresh_stored;
    refresh_revoked = d.refresh_revoked;
  }

  pub revoke_refresh_rows-IsDead :
      (g : Text) (db : Database) → IsDead h k db → IsDead h k (revoke_refresh_rows g db)
  unfolding revoke_refresh_rows
  revoke_refresh_rows-IsDead g db d = record {
    jwt_stored = d.jwt_stored;
    jwt_revoked = d.jwt_revoked;
    refresh_stored = any_refresh-retire k g db.refresh_tokens ∙ d.refresh_stored;
    refresh_revoked = live_refresh-retire k g db.refresh_tokens d.refresh_revoked;
  }

  -- Both revocations, of tokens that are stored.
  pub revoke_both-IsDead :
      (db : Database)
      → any (is_jwt h) db.jwt_tokens ≡ true
      → any (is_refresh k) db.refresh_tokens ≡ true
      → IsDead h k (revoke_refresh_rows k (revoke_jwt_rows h db))
  unfolding revoke_jwt_rows revoke_refresh_rows
  revoke_both-IsDead db a r = record {
    jwt_stored = any_jwt-revoke h h db.jwt_tokens ∙ a;
    jwt_revoked = live_jwt-revoke_self h db.jwt_tokens;
    refresh_stored = any_refresh-retire k k db.refresh_tokens ∙ r;
    refresh_revoked = live_refresh-retire_self k db.refresh_tokens;
  }

  insert_user-IsDead :
      (new : CreateFullUser) (db after : Database) (id : ℤ)
      → IsDead h k db
      → insert_user new db ≡ some (id, after)
      → IsDead h k after
  unfolding insert_user
  insert_user-IsDead new db after id d e =
      ground (arith, d.jwt_stored, d.jwt_revoked, d.refresh_stored, d.refresh_revoked)

  update_user_row-IsDead :
      (id : ℤ) (email : Text) (f : User → User) (db after : Database)
      → IsDead h k db
      → update_user_row id email f db ≡ some after
      → IsDead h k after
  unfolding update_user_row
  update_user_row-IsDead id email f db after d e =
      ground (arith, d.jwt_stored, d.jwt_revoked, d.refresh_stored, d.refresh_revoked)

  -- No write to the accounts brings a dead token back.
  pub IsDead-Stable : Stable (IsDead h k)
  IsDead-Stable = record {
    tokens = record {
      insert_jwt_kept = insert_jwt-IsDead;
      insert_refresh_kept = insert_refresh-IsDead;
      revoke_jwt_kept = revoke_jwt_rows-IsDead;
      revoke_refresh_kept = revoke_refresh_rows-IsDead;
    };
    insert_user_kept = insert_user-IsDead;
    update_user_kept = update_user_row-IsDead;
  }
