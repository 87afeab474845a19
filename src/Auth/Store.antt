-- ===== src/Auth/Store.antt =====
-- src/auth.rs: the functions on tokens and users. The crates jsonwebtoken and bcrypt are
-- parameters, as are the texts of their errors; the clock and the random bytes are arguments, and
-- each function is told whether the pool or the query fails.
use invoices_contracts.Base.{
  ℕ, ◌+◌, ◌*◌, ◌/◌, Bool, true, false, not, ◌&&◌, [], ◌∷◌, Option, none, some, Text, ascii, ◌==◌,
  text_eq, ltb, find, length, if◌then◌else◌, nat_eq,
}
use invoices_contracts.Base.Int.{ℤ}
use invoices_contracts.RateLimit.{Time}
use invoices_contracts.Crypto.{Primitives}
use invoices_contracts.Models.{User, Claims, RefreshToken}
use invoices_contracts.Database.{Database}
use invoices_contracts.Database.Accounts.{
  has_email, is_user, is_jwt, is_refresh, insert_jwt, insert_refresh, revoke_jwt_rows,
  revoke_refresh_rows,
}
use invoices_contracts.Program.{value, stop, Program}
use invoices_contracts.Auth.Config.{JwtConfig, expiry_seconds, refresh_expiry_seconds}

-- The texts are those of the errors of the libraries, or the email that was not found;
-- `user_id_not_found id` is `UserNotFound` with the text `User ID: id`.
pub data AuthError : Type 0 where
  database pool : Text → AuthError
  jwt password_verification : AuthError
  user_not_found : Text → AuthError
  user_id_not_found : ℤ → AuthError

-- What `decode` returns: the claims, the error kind `ExpiredSignature`, or another error.
pub data Decoded : Type 0 where
  valid : Claims → Decoded
  expired invalid : Decoded

-- `encode secret claims`, `decode secret token now`, `verify password hash` and `hash salt
-- password`, each `none` where the function returns an error.
pub record Services : Type 0 where
  pub crypto : Primitives
  pub to_rfc3339 : Time → Text
  pub encode : Text → Claims → Option Text
  pub decode : Text → Text → Time → Decoded
  pub verify : Text → Text → Option Bool
  pub hash : Text → Text → Option Text
  pub debug_lower : AuthError → Text

-- How the database answers one function: not at all, with an error, or as it should.
pub data Condition : Type 0 where
  fine : Condition
  no_connection query_error : Text → Condition

-- The functions and statements that ask the database. A handler runs each of them once at most.
pub data Call : Type 0 where
  is_jwt_revoked_call get_valid_refresh_token_call get_user_by_id_call : Call
  store_jwt_call revoke_token_call revoke_refresh_token_call store_refresh_token_call : Call
  get_user_by_email_call user_exists_call insert_user_call update_user_call : Call

abbrev pub Stored : Type 0 → Type 0
Stored A = Program Database AuthError A

-- `pool.get().await?` and the query behind it.
unfoldable pub access : {A : Type 0} → Condition → Stored A → Stored A
access fine m db = m db
access (no_connection e) m db = (stop (pool e), db)
access (query_error e) m db = (stop (database e), db)

-- An insertion, whose clash with a unique column is an error of the database.
unfoldable pub insertion : Option Database → Stored (Unit {0})
insertion none db = (stop (database (ascii "UNIQUE constraint failed")), db)
insertion (some new) db = (value tt, new)

-- The order of texts in SQL, by bytes.
unfoldable pub text_ltb : Text → Text → Bool
text_ltb s [] = false
text_ltb [] (b ∷ t) = true
text_ltb (a ∷ s) (b ∷ t) = if a == b then text_ltb s t else ltb a b

abbrev pub second : ℕ
second = 1000000000

module _ (ext : Services) where
  unfoldable pub verify_password : Text → Text → Option Bool
  verify_password password hash = ext.verify password hash

  unfoldable pub generate_jwt : ℤ → Text → JwtConfig → Time → Option Text
  generate_jwt user_id email config now = ext.encode config.secret (record {
    user_id = user_id;
    email = email;
    exp = (now + expiry_seconds config * second) / second;
    iat = now / second;
  })

  unfoldable pub decode_jwt : Text → JwtConfig → Time → Decoded
  decode_jwt token config now = ext.decode config.secret token now

  unfoldable pub hash_token : Text → Text
  hash_token token = ext.crypto.hex_encode (ext.crypto.sha256 token)

  unfoldable pub store_jwt : Condition → JwtConfig → Time → ℤ → Text → Stored (Unit {0})
  store_jwt c config now user_id token = access c (λ db.
      insertion
        (insert_jwt
          (record {
            user_id = user_id;
            token_hash = hash_token token;
            expires_at = ext.to_rfc3339 (now + expiry_seconds config * second);
            created_at = ext.to_rfc3339 now;
          })
          db)
        db)

  unfoldable pub revoke_token : Condition → Text → Stored (Unit {0})
  revoke_token c token = access c (λ db. (value tt, revoke_jwt_rows (hash_token token) db))

  -- A token that is not stored counts as revoked.
  unfoldable pub is_jwt_revoked : Condition → Text → Stored Bool
  is_jwt_revoked c token = access c (λ db. elim (find (is_jwt (hash_token token)) db.jwt_tokens) [
    | none ↦ (value true, db)
    | some row ↦ (value row.revoked, db)
  ])

  -- The hex of 32 random bytes.
  unfoldable pub generate_refresh_token : Text → Text
  generate_refresh_token bytes = ext.crypto.hex_encode bytes

  unfoldable pub store_refresh_token : Condition → JwtConfig → Time → ℤ → Text → Stored (Unit {0})
  store_refresh_token c config now user_id token = access c (λ db.
      insertion
        (insert_refresh
          (record {
            user_id = user_id;
            token_hash = hash_token token;
            expires_at = ext.to_rfc3339 (now + refresh_expiry_seconds config * second);
            created_at = ext.to_rfc3339 now;
          })
          db)
        db)

  -- The filters of the query: the hash, not revoked, and not yet expired as texts compare.
  abbrev pub is_valid_refresh : Text → Time → RefreshToken → Bool
  is_valid_refresh token now t =
      is_refresh (hash_token token) t && not t.revoked && text_ltb (ext.to_rfc3339 now) t.expires_at

  unfoldable pub get_valid_refresh_token : Condition → Time → Text → Stored (Option (ℤ × ℤ))
  get_valid_refresh_token c now token = access c (λ db.
      elim (find (is_valid_refresh token now) db.refresh_tokens) [
        | none ↦ (value none, db)
        | some t ↦ (value (some (t.id, t.user_id)), db)
      ])

  unfoldable pub revoke_refresh_token : Condition → Text → Stored (Unit {0})
  revoke_refresh_token c token =
      access c (λ db. (value tt, revoke_refresh_rows (hash_token token) db))

unfoldable pub get_user_by_email : Condition → Text → Stored User
get_user_by_email c email = access c (λ db. elim (find (has_email email) db.users) [
  | none ↦ (stop (user_not_found email), db)
  | some u ↦ (value u, db)
])

unfoldable pub get_user_by_id : Condition → ℤ → Stored User
get_user_by_id c id = access c (λ db. elim (find (is_user id) db.users) [
  | none ↦ (stop (user_id_not_found id), db)
  | some u ↦ (value u, db)
])

unfoldable pub user_exists : Condition → Stored Bool
user_exists c = access c (λ db. (value (ltb 0 (length db.users)), db))
