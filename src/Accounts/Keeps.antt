-- ===== src/Accounts/Keeps.antt =====
-- src/auth.rs and src/handlers/auth.rs: the handlers keep what no write to the accounts breaks.
use invoices_contracts.Base.{
  ◌≡◌, refl, sym, Bool, true, false, Option, none, some, arith, subst, Text,
}
use invoices_contracts.Base.Int.{ℤ}
use invoices_contracts.Models.{User, CreateFullUser}
use invoices_contracts.Database.{Database}
use invoices_contracts.Database.Accounts.{insert_user, update_user_row}
use invoices_contracts.Server.{Server}
use invoices_contracts.Program.{Try, value, stop, Program}
use invoices_contracts.Program.Rules.{Preserves, preserves_rules}
use invoices_contracts.Auth.Config.{JwtConfig}
use invoices_contracts.Auth.Store.{AuthError, Services, Condition, access, insertion, Call}
use invoices_contracts.Auth.Cookies.{AuthUser}
use invoices_contracts.Auth.Keeps.{store_rules}
use invoices_contracts.Auth.Stable.{
  Stable, access-kept, insertion-kept, get_user_by_email-Preserves, user_exists-Preserves,
}
use invoices_contracts.Accounts.Replies.{Answer, Visit, on_db, check_limit, record_failure, reset}
use invoices_contracts.Accounts.Login.{
  LoginRequest, verify_login, issue_tokens, reject_invalid, login, revoke_access, revoke_refresh,
  logout,
}
use invoices_contracts.Accounts.Setup.{
  SetupRequest, allow_setup, ask_users, setup_first_user, insert_returning,
}
use invoices_contracts.Accounts.Profile.{
  UpdateUserRequest, get_current_user, check_update, check_password, new_password_hash, update_user,
}

module _ (P : Database → Type 0) (st : Stable P) where
  -- The property, of the tables of the server.
  abbrev pub OnDb : Server → Type 0
  OnDb s = P s.db

  pub on_db-Preserves :
      {E A : Type 0} (m : Program Database E A) → Preserves P m → Preserves OnDb (on_db m)
  unfolding on_db
  on_db-Preserves m p = record { kept = λ s d. p.kept s.db d }

  check_limit-db : {E : Type 0} (e : E) (v : Visit) (s : Server) → (check_limit e v s).1.db ≡ s.db
  unfolding check_limit
  check_limit-db e v s = ground arith

  check_limit-Preserves : {E : Type 0} (e : E) (v : Visit) → Preserves OnDb (check_limit e v)
  check_limit-Preserves e v = record { kept = λ s d. subst P (sym (check_limit-db e v s)) d }

  record_failure-Preserves : {E : Type 0} (v : Visit) → Preserves {E = E} OnDb (record_failure v)
  unfolding record_failure
  record_failure-Preserves v = record { kept = λ s d. d }

  reset-Preserves : {E : Type 0} (v : Visit) → Preserves {E = E} OnDb (reset v)
  unfolding reset
  reset-Preserves v = record { kept = λ s d. d }

  module _ (ext : Services) (config : JwtConfig) where
    verify_login-Preserves :
        (u : Option User) (password : Text) → Preserves OnDb (verify_login ext config u password)
    unfolding verify_login
    verify_login-Preserves u password = search preserves_rules depth 8

    issue_tokens-Preserves :
        {B : Type 0} (e : Text → Answer B) (v : Visit) (user_id : ℤ) (email : Text)
        → Preserves OnDb (issue_tokens ext config e v user_id email)
    unfolding issue_tokens
    issue_tokens-Preserves e v user_id email =
        search (preserves_rules, store_rules, on_db-Preserves) depth 16

    reject_invalid-Preserves :
        (v : Visit) (b : Bool) → Preserves OnDb (reject_invalid ext config v b)
    unfolding reject_invalid
    reject_invalid-Preserves v b = search (preserves_rules, record_failure-Preserves) depth 10

    pub login-Preserves :
        (v : Visit) (payload : LoginRequest) → Preserves OnDb (login ext config v payload)
    unfolding login
    login-Preserves v payload =
        search
          (
            preserves_rules, store_rules, on_db-Preserves, check_limit-Preserves, reset-Preserves,
            verify_login-Preserves, issue_tokens-Preserves, reject_invalid-Preserves,
          )
          depth 30

    revoke_access-Preserves :
        (c : Condition) (token : Option Text) → Preserves P (revoke_access ext config c token)
    unfolding revoke_access
    revoke_access-Preserves c none = search preserves_rules
    revoke_access-Preserves c (some token) = search (preserves_rules, store_rules) depth 8

    revoke_refresh-Preserves :
        (c : Condition) (token : Option Text) → Preserves P (revoke_refresh ext config c token)
    unfolding revoke_refresh
    revoke_refresh-Preserves c none = search preserves_rules
    revoke_refresh-Preserves c (some token) = search (preserves_rules, store_rules) depth 8

    pub logout-Preserves :
        (conditions : Call → Condition) (jwt_cookie refresh_cookie : Option Text)
        → Preserves P (logout ext config conditions jwt_cookie refresh_cookie)
    unfolding logout
    logout-Preserves conditions jwt_cookie refresh_cookie =
        search (preserves_rules, revoke_access-Preserves, revoke_refresh-Preserves) depth 10

    ask_users-Preserves : (c : Condition) → Preserves OnDb (ask_users ext config c)
    unfolding ask_users
    ask_users-Preserves c = record {
      kept = λ s d. (user_exists-Preserves P st.tokens c).kept s.db d;
    }

    allow_setup-Preserves : (r : Try AuthError Bool) → Preserves OnDb (allow_setup ext config r)
    unfolding allow_setup
    allow_setup-Preserves (value true) = search preserves_rules
    allow_setup-Preserves (value false) = search preserves_rules
    allow_setup-Preserves (stop e) = search preserves_rules depth 6

    insert_returning-kept :
        (o : Option (ℤ × Database)) (db : Database)
        → P db
        → ((id : ℤ) (after : Database) → o ≡ some (id, after) → P after)
        → P (insert_returning o db).1
    unfolding insert_returning
    insert_returning-kept none db d f = d
    insert_returning-kept (some (id, after)) db d f = f id after refl

    insert_user-Preserves :
        (c : Condition) (new : CreateFullUser)
        → Preserves P (access c (λ db. insert_returning (insert_user new db) db))
    insert_user-Preserves c new = record {
      kept = λ db d.
          access-kept P c _
            (λ db d.
              insert_returning-kept _ db d (λ id after e. st.insert_user_kept new db after id d e))
            db d;
    }

    pub setup_first_user-Preserves :
        (v : Visit) (payload : SetupRequest)
        → Preserves OnDb (setup_first_user ext config v payload)
    unfolding setup_first_user
    setup_first_user-Preserves v payload =
        search
          (
            preserves_rules, on_db-Preserves, check_limit-Preserves, reset-Preserves,
            ask_users-Preserves, allow_setup-Preserves, insert_user-Preserves,
            issue_tokens-Preserves,
          )
          depth 30

    pub get_current_user-Preserves :
        (conditions : Call → Condition) (user : AuthUser)
        → Preserves P (get_current_user conditions user)
    unfolding get_current_user
    get_current_user-Preserves conditions user = search (preserves_rules, store_rules) depth 10

    check_password-Preserves : (new : Option Text) → Preserves P (check_password new)
    unfolding check_password
    check_password-Preserves none = search preserves_rules
    check_password-Preserves (some new) = search preserves_rules depth 8

    check_update-Preserves : (payload : UpdateUserRequest) → Preserves P (check_update payload)
    unfolding check_update
    check_update-Preserves payload = search (preserves_rules, check_password-Preserves) depth 20

    new_password_hash-Preserves :
        (salt : Text) (user : User) (current new : Option Text)
        → Preserves P (new_password_hash ext salt user current new)
    unfolding new_password_hash
    new_password_hash-Preserves salt user current none = search preserves_rules
    new_password_hash-Preserves salt user current (some new) = search preserves_rules depth 20

    update_row-Preserves :
        (c : Condition) (id : ℤ) (email : Text) (f : User → User)
        → Preserves P (access c (λ db. insertion (update_user_row id email f db) db))
    update_row-Preserves c id email f = record {
      kept = λ db d.
          access-kept P c _
            (λ db d. insertion-kept P _ db d (λ new e. st.update_user_kept id email f db new d e))
            db d;
    }

    pub update_user-Preserves :
        (conditions : Call → Condition) (salt : Text) (user : AuthUser)
        (payload : UpdateUserRequest)
        → Preserves P (update_user ext conditions salt user payload)
    unfolding update_user
    update_user-Preserves conditions salt user payload =
        search
          (
            preserves_rules,
            get_user_by_email-Preserves P st.tokens,
            check_update-Preserves,
            new_password_hash-Preserves,
            update_row-Preserves,
          )
          depth 30
