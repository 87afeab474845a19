-- ===== src/Database/Accounts.antt =====
-- The tables user, jwt_tokens and refresh_tokens of src/schema.rs, with the unique columns of
-- migrations/, and the queries of src/auth.rs and src/handlers/auth.rs on them.
use invoices_contracts.Base.{
  ℕ, suc, Bool, true, false, not, ◌&&◌, [], ◌∷◌, ◌++◌, Option, none, some, Text, ◌==◌, text_eq, any,
  update, if◌then◌else◌,
}
use invoices_contracts.Base.Int.{ℤ, pos, int_eq}
use invoices_contracts.Models.{
  User, CreateFullUser, JwtToken, CreateJwtToken, RefreshToken, CreateRefreshToken,
}
use invoices_contracts.Database.{Database}

abbrev pub has_email : Text → User → Bool
has_email email u = u.email == email

abbrev pub is_user : ℤ → User → Bool
is_user id u = u.id == id

abbrev pub is_jwt : Text → JwtToken → Bool
is_jwt hash t = t.token_hash == hash

abbrev pub is_refresh : Text → RefreshToken → Bool
is_refresh hash t = t.token_hash == hash

abbrev pub jwt_row : ℕ → CreateJwtToken → JwtToken
jwt_row id new = record {
  id = pos id;
  user_id = new.user_id;
  token_hash = new.token_hash;
  expires_at = new.expires_at;
  created_at = new.created_at;
  revoked = false;
}

-- `insert_into(jwt_tokens)`
unfoldable pub insert_jwt : CreateJwtToken → Database → Option Database
insert_jwt new db =
    if any (is_jwt new.token_hash) db.jwt_tokens
    then none
    else some (record db {
      jwt_tokens = db.jwt_tokens ++ jwt_row db.next_jwt new ∷ [];
      next_jwt = suc db.next_jwt;
    })

abbrev pub revoke : JwtToken → JwtToken
revoke t = record t { revoked = true }

-- `update(jwt_tokens.filter(token_hash.eq(hash))).set(revoked.eq(true))`
unfoldable pub revoke_jwt_rows : Text → Database → Database
revoke_jwt_rows hash db = record db { jwt_tokens = update (is_jwt hash) revoke db.jwt_tokens }

abbrev pub refresh_row : ℕ → CreateRefreshToken → RefreshToken
refresh_row id new = record {
  id = pos id;
  user_id = new.user_id;
  token_hash = new.token_hash;
  expires_at = new.expires_at;
  created_at = new.created_at;
  revoked = false;
}

-- `insert_into(refresh_tokens)`
unfoldable pub insert_refresh : CreateRefreshToken → Database → Option Database
insert_refresh new db =
    if any (is_refresh new.token_hash) db.refresh_tokens
    then none
    else some (record db {
      refresh_tokens = db.refresh_tokens ++ refresh_row db.next_refresh new ∷ [];
      next_refresh = suc db.next_refresh;
    })

abbrev pub retire : RefreshToken → RefreshToken
retire t = record t { revoked = true }

-- `update(refresh_tokens.filter(token_hash.eq(hash))).set(revoked.eq(true))`
unfoldable pub revoke_refresh_rows : Text → Database → Database
revoke_refresh_rows hash db = record db {
  refresh_tokens = update (is_refresh hash) retire db.refresh_tokens;
}

abbrev pub user_row : ℕ → CreateFullUser → User
user_row id new = record {
  id = pos id;
  name = new.name;
  email = new.email;
  address = new.address;
  tax_id = new.tax_id;
  password = new.password;
}

-- `insert_into(user)`, which returns the new id.
unfoldable pub insert_user : CreateFullUser → Database → Option (ℤ × Database)
insert_user new db =
    if any (has_email new.email) db.users
    then none
    else some (
      pos db.next_user,
      record db {
        users = db.users ++ user_row db.next_user new ∷ [];
        next_user = suc db.next_user;
      },
    )

-- `update(user.filter(id.eq(id))).set((name, email, …))`; the email is unique.
unfoldable pub update_user_row : ℤ → Text → (User → User) → Database → Option Database
update_user_row id email f db =
    if any (λ u. not (is_user id u) && has_email email u) db.users
    then none
    else some (record db { users = update (is_user id) f db.users })
