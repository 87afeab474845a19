-- ===== src/Auth/Stable.antt =====
-- src/auth.rs: what its functions keep. A property of the tables that no write to the accounts breaks
-- is kept by every function on tokens and users.
use invoices_contracts.Base.{◌≡◌, refl, Option, none, some, Text, text_eq, nat_eq, find}
use invoices_contracts.Models.{User, CreateFullUser, CreateJwtToken, CreateRefreshToken}
use invoices_contracts.Base.Int.{ℤ}
use invoices_contracts.RateLimit.{Time}
use invoices_contracts.Database.{Database}
use invoices_contracts.Database.Accounts.{
  has_email, is_user, is_jwt, insert_jwt, insert_refresh, revoke_jwt_rows, revoke_refresh_rows,
  insert_user, update_user_row,
}
use invoices_contracts.Program.{Try}
use invoices_contracts.Program.Rules.{Preserves}
use invoices_contracts.Auth.Config.{JwtConfig}
use invoices_contracts.Auth.Store.{
  AuthError, Services, Condition, fine, no_connection, query_error, Stored, access, insertion,
  store_jwt, revoke_token, is_jwt_revoked, store_refresh_token, get_valid_refresh_token,
  revoke_refresh_token, get_user_by_email, get_user_by_id, user_exists, is_valid_refresh,
}

-- The laws of such a property, one for every write to the tokens.
pub record TokenStable (P : Database → Type 0) : Type 0 where
  pub insert_jwt_kept :
      (new : CreateJwtToken) (db after : Database) → P db → insert_jwt new db ≡ some after → P after
  pub insert_refresh_kept :
      (new : CreateRefreshToken) (db after : Database)
      → P db
      → insert_refresh new db ≡ some after
      → P after
  pub revoke_jwt_kept : (hash : Text) (db : Database) → P db → P (revoke_jwt_rows hash db)
  pub revoke_refresh_kept : (hash : Text) (db : Database) → P db → P (revoke_refresh_rows hash db)

-- With one for every write to the users.
pub record Stable (P : Database → Type 0) : Type 0 where
  pub tokens : TokenStable P
  pub insert_user_kept :
      (new : CreateFullUser) (db after : Database) (id : ℤ)
      → P db
      → insert_user new db ≡ some (id, after)
      → P after
  pub update_user_kept :
      (id : ℤ) (email : Text) (f : User → User) (db after : Database)
      → P db
      → update_user_row id email f db ≡ some after
      → P after

module _ (P : Database → Type 0) where
  pub access-kept :
      {A : Type 0} (c : Condition) (m : Stored A)
      → ((db : Database) → P db → P (m db).1)
      → (db : Database) → P db
      → P (access c m db).1
  unfolding access
  access-kept fine m keep db d = keep db d
  access-kept (no_connection e) m keep db d = d
  access-kept (query_error e) m keep db d = d

  pub insertion-kept :
      (o : Option Database) (db : Database)
      → P db
      → ((new : Database) → o ≡ some new → P new)
      → P (insertion o db).1
  unfolding insertion
  insertion-kept none db d f = d
  insertion-kept (some new) db d f = f new refl

  reading-kept :
      {A R : Type 0} (o : Option R) (none_case : Try AuthError A) (f : R → Try AuthError A)
      (db : Database)
      → P db
      → P
          (elim o as (λ o. Try AuthError A × Database) [
            | none ↦ (none_case, db)
            | some r ↦ (f r, db)
          ]).1
  reading-kept none n f db d = d
  reading-kept (some r) n f db d = d

module _ (P : Database → Type 0) (st : TokenStable P) where
  module _ (ext : Services) (c : Condition) where
    pub store_jwt-Preserves :
        (config : JwtConfig) (now : Time) (user : ℤ) (token : Text)
        → Preserves P (store_jwt ext c config now user token)
    unfolding store_jwt
    store_jwt-Preserves config now user token = record {
      kept = λ db d.
          access-kept P c _
            (λ db d. insertion-kept P _ db d (λ new e. st.insert_jwt_kept _ db new d e)) db d;
    }

    pub store_refresh_token-Preserves :
        (config : JwtConfig) (now : Time) (user : ℤ) (token : Text)
        → Preserves P (store_refresh_token ext c config now user token)
    unfolding store_refresh_token
    store_refresh_token-Preserves config now user token = record {
      kept = λ db d.
          access-kept P c _
            (λ db d. insertion-kept P _ db d (λ new e. st.insert_refresh_kept _ db new d e)) db d;
    }

    pub revoke_token-Preserves : (token : Text) → Preserves P (revoke_token ext c token)
    unfolding revoke_token
    revoke_token-Preserves token = record {
      kept = λ db d. access-kept P c _ (λ db d. st.revoke_jwt_kept _ db d) db d;
    }

    pub revoke_refresh_token-Preserves :
        (token : Text) → Preserves P (revoke_refresh_token ext c token)
    unfolding revoke_refresh_token
    revoke_refresh_token-Preserves token = record {
      kept = λ db d. access-kept P c _ (λ db d. st.revoke_refresh_kept _ db d) db d;
    }

    pub is_jwt_revoked-Preserves : (token : Text) → Preserves P (is_jwt_revoked ext c token)
    unfolding is_jwt_revoked
    is_jwt_revoked-Preserves token = record {
      kept = λ db d.
          access-kept P c _ (λ db d. reading-kept P (find (is_jwt _) db.jwt_tokens) _ _ db d) db d;
    }

    pub get_valid_refresh_token-Preserves :
        (now : Time) (token : Text) → Preserves P (get_valid_refresh_token ext c now token)
    unfolding get_valid_refresh_token
    get_valid_refresh_token-Preserves now token = record {
      kept = λ db d.
          access-kept P c _
            (λ db d.
              reading-kept P (find (is_valid_refresh ext token now) db.refresh_tokens) _ _ db d)
            db d;
    }

  pub get_user_by_email-Preserves :
      (c : Condition) (email : Text) → Preserves P (get_user_by_email c email)
  unfolding get_user_by_email
  get_user_by_email-Preserves c email = record {
    kept = λ db d.
        access-kept P c _ (λ db d. reading-kept P (find (has_email email) db.users) _ _ db d) db d;
  }

  pub get_user_by_id-Preserves : (c : Condition) (id : ℤ) → Preserves P (get_user_by_id c id)
  unfolding get_user_by_id
  get_user_by_id-Preserves c id = record {
    kept = λ db d.
        access-kept P c _ (λ db d. reading-kept P (find (is_user id) db.users) _ _ db d) db d;
  }

  pub user_exists-Preserves : (c : Condition) → Preserves P (user_exists c)
  unfolding user_exists
  user_exists-Preserves c = record { kept = λ db d. access-kept P c _ (λ db d. d) db d }
