-- ===== src/Accounts/Profile.antt =====
-- src/handlers/auth.rs: `get_current_user` and `update_user`, behind the extractor.
use invoices_contracts.Base.{
  ℕ, not, ◌&&◌, Option, none, some, Text, ascii, ◌==◌, nat_eq, any, length, leb, ltb,
}
use invoices_contracts.Base.Int.{ℤ}
use invoices_contracts.Models.{User}
use invoices_contracts.Database.{Database}
use invoices_contracts.Database.Accounts.{update_user_row}
use invoices_contracts.Server.{
  StatusCode, ok, bad_request, unauthorized, payload_too_large, internal_server_error,
}
use invoices_contracts.Program.{Program, pure, or_return, check, ◌>>=◌, ◌>>◌, map_err}
use invoices_contracts.Auth.Store.{
  AuthError, Services, Condition, Call, get_user_by_email_call, update_user_call, get_user_by_email,
  verify_password, access, insertion, pool,
}
use invoices_contracts.Auth.Cookies.{AuthUser}

pub record UserProfileResponse : Type 0 where
  pub id : ℤ
  pub name : Text
  pub email : Text
  pub address : Text
  pub tax_id : Text

pub record UpdateUserRequest : Type 0 where
  pub name : Text
  pub email : Text
  pub address : Text
  pub tax_id : Text
  pub current_password : Option Text
  pub new_password : Option Text

-- The profile, or the status of a failure, whose body is an empty profile.
unfoldable pub get_current_user :
    (Call → Condition) → AuthUser → Program Database StatusCode UserProfileResponse
get_current_user conditions user = do
  found ←
      map_err (λ e. internal_server_error)
        (get_user_by_email (conditions get_user_by_email_call) user.email)
  pure (record {
    id = found.id;
    name = found.name;
    email = found.email;
    address = found.address;
    tax_id = found.tax_id;
  })

abbrev pub max_name_len : ℕ
max_name_len = 200

abbrev pub max_email_len : ℕ
max_email_len = 255

abbrev pub max_address_len : ℕ
max_address_len = 1000

abbrev pub max_tax_id_len : ℕ
max_tax_id_len = 100

-- A status with the message of an `UpdateUserResponse`, whose `success` is true for `ok` alone.
abbrev pub UpdateAnswer : Type 0
UpdateAnswer = StatusCode × Text

-- The length of a new password, if there is one.
unfoldable pub check_password : Option Text → Program Database UpdateAnswer (Unit {0})
check_password none = pure tt
check_password (some new_pass) = do
  check (bad_request, ascii "New password must be at least 8 characters")
      (not (ltb (length new_pass) 8))
  check (payload_too_large, ascii "Password exceeds maximum length of 128 characters")
      (leb (length new_pass) 128)

-- The checks of the request, in the order of the code.
unfoldable pub check_update : UpdateUserRequest → Program Database UpdateAnswer (Unit {0})
check_update payload = do
  check (payload_too_large, ascii "Name exceeds maximum length of 200 characters")
      (leb (length payload.name) max_name_len)
  check (payload_too_large, ascii "Email exceeds maximum length of 255 characters")
      (leb (length payload.email) max_email_len)
  check (bad_request, ascii "Invalid email format")
      (any (λ b. b == b'@') payload.email && any (λ b. b == b'.') payload.email)
  check (payload_too_large, ascii "Address exceeds maximum length of 1000 characters")
      (leb (length payload.address) max_address_len)
  check (payload_too_large, ascii "Tax ID exceeds maximum length of 100 characters")
      (leb (length payload.tax_id) max_tax_id_len)
  check_password payload.new_password

-- The message of a failure to connect, or of a failure to update.
abbrev pub update_message : AuthError → Text
update_message (pool e) = ascii "Database connection error"
update_message e = ascii "Failed to update profile"

module _ (ext : Services) where
  -- The hash of a new password, for which the current one is asked.
  unfoldable pub new_password_hash :
      Text → User → Option Text → Option Text → Program Database UpdateAnswer (Option Text)
  new_password_hash salt user current_password none = pure none
  new_password_hash salt user current_password (some new_pass) = do
    current_pass ←
        or_return (bad_request, ascii "Current password is required to change password")
          current_password
    right ←
        or_return (internal_server_error, ascii "Server error")
          (verify_password ext current_pass user.password)
    check (unauthorized, ascii "Current password is incorrect") right
    hashed ←
        or_return (internal_server_error, ascii "Failed to hash new password")
          (ext.hash salt new_pass)
    pure (some hashed)

  abbrev pub or_old : Text → Option Text → Text
  or_old old none = old
  or_old old (some new) = new

  abbrev pub changed : UpdateUserRequest → Option Text → User → User
  changed payload password_hash u = record u {
    name = payload.name;
    email = payload.email;
    address = payload.address;
    tax_id = payload.tax_id;
    password = or_old u.password password_hash;
  }

  unfoldable pub update_user :
      (Call → Condition)
      → Text
      → AuthUser
      → UpdateUserRequest
      → Program Database UpdateAnswer UpdateAnswer
  update_user conditions salt user payload = do
    check_update payload
    current_user ←
        map_err (λ e. (internal_server_error, ascii "Failed to fetch user details"))
          (get_user_by_email (conditions get_user_by_email_call) user.email)
    password_hash ←
        new_password_hash salt current_user payload.current_password payload.new_password
    map_err (λ e. (internal_server_error, update_message e))
        (access (conditions update_user_call) (λ db.
          insertion
            (update_user_row current_user.id payload.email (changed payload password_hash) db) db))
    pure (ok, ascii "Profile updated successfully")
