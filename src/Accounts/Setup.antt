-- ===== src/Accounts/Setup.antt =====
-- src/handlers/auth.rs: `check_setup` and `setup_first_user`.
use invoices_contracts.Base.{
  Bool, true, false, not, ◌&&◌, ◌||◌, [], ◌∷◌, Option, none, some, Text, ascii, if◌then◌else◌,
}
use invoices_contracts.Base.Int.{ℤ}
use invoices_contracts.Database.{Database}
use invoices_contracts.Database.Accounts.{insert_user}
use invoices_contracts.Server.{
  Server, StatusCode, created, conflict, too_many_requests, internal_server_error,
}
use invoices_contracts.Program.{
  Try, value, stop, Program, pure, return_early, or_return, ◌>>=◌, ◌>>◌, map_err,
}
use invoices_contracts.Auth.Config.{JwtConfig, starts_with}
use invoices_contracts.Auth.Store.{
  AuthError, Services, Condition, user_exists_call, insert_user_call, user_exists, access, Stored,
  database, pool,
}
use invoices_contracts.Accounts.Replies.{
  Answer, answer, Visit, session_cookies, on_db, check_limit, reset,
}
use invoices_contracts.Accounts.Login.{issue_tokens}

-- `text.contains(part)`
unfoldable pub contains : Text → Text → Bool
unfolding starts_with
contains part [] = starts_with part []
contains part (b ∷ text) = starts_with part (b ∷ text) || contains part text

-- Whether the text of an error says that the table is not there.
unfoldable pub is_missing_table : Text → Bool
is_missing_table text =
    contains (ascii "no such table") text
    || (contains (ascii "table") text && contains (ascii "not exist") text)

-- `needs_setup` of the answer, or the status code of a failure.
abbrev pub CheckSetupResponse : Type 0
CheckSetupResponse = Bool

pub record SetupRequest : Type 0 where
  pub name : Text
  pub email : Text
  pub address : Text
  pub tax_id : Text
  pub password : Text

pub record SetupResponse : Type 0 where
  pub success : Bool
  pub message : Text
  pub redirect : Option Text

abbrev pub refused : StatusCode → Text → Answer SetupResponse
refused status message =
    answer status (record { success = false; message = message; redirect = none })

abbrev pub already_done : Answer SetupResponse
already_done = answer conflict (record {
  success = false;
  message = ascii "Setup already completed. Please login instead.";
  redirect = some (ascii "/login");
})

unfoldable pub insert_returning : Option (ℤ × Database) → Stored ℤ
insert_returning none db = (stop (database (ascii "UNIQUE constraint failed")), db)
insert_returning (some inserted) db = (value inserted.0, inserted.1)

-- The message of a failure to connect, or of a failure to insert.
abbrev pub insert_message : AuthError → Text
insert_message (pool e) = ascii "Server error"
insert_message e = ascii "Failed to create user"

module _ (ext : Services) (config : JwtConfig) where
  unfoldable pub setup_answer : Try AuthError Bool → Try StatusCode CheckSetupResponse
  setup_answer (value exists) = value (not exists)
  setup_answer (stop e) =
      if is_missing_table (ext.debug_lower e) then value true else stop internal_server_error

  unfoldable pub check_setup : Condition → Program Database StatusCode CheckSetupResponse
  check_setup c db = let (r, after) = user_exists c db in (setup_answer r, after)

  -- The `match` on `user_exists`.
  unfoldable pub allow_setup : Try AuthError Bool → Program Server (Answer SetupResponse) (Unit {0})
  allow_setup (value true) = return_early already_done
  allow_setup (value false) = pure tt
  allow_setup (stop e) =
      if is_missing_table (ext.debug_lower e)
      then pure tt
      else return_early (refused internal_server_error (ascii "Server error"))

  unfoldable pub ask_users : Condition → Program Server (Answer SetupResponse) (Try AuthError Bool)
  ask_users c s = let (r, db) = user_exists c s.db in (value r, record s { db = db })

  unfoldable pub setup_first_user :
      Visit → SetupRequest → Program Server (Answer SetupResponse) (Answer SetupResponse)
  setup_first_user v payload = do
    check_limit
        (refused too_many_requests (ascii "Too many setup attempts. Please try again later.")) v
    exists ← ask_users (v.conditions user_exists_call)
    allow_setup exists
    password_hash ←
        or_return (refused internal_server_error (ascii "Server error"))
          (ext.hash v.salt payload.password)
    user_id ← on_db (
        map_err (λ e. refused internal_server_error (insert_message e))
          (access (v.conditions insert_user_call) (λ db.
            insert_returning
              (insert_user
                (record {
                  name = payload.name;
                  email = payload.email;
                  address = payload.address;
                  tax_id = payload.tax_id;
                  password = password_hash;
                })
                db)
              db)))
    tokens ← issue_tokens ext config (refused internal_server_error) v user_id payload.email
    reset v
    pure (record {
      status = created;
      body = record {
        success = true;
        message = ascii "Setup complete! Welcome to PixlW Invoices.";
        redirect = some (ascii "/dashboard");
      };
      cookies = session_cookies tokens.0 tokens.1;
    })
