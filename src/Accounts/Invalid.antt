-- ===== src/Accounts/Invalid.antt =====
-- src/handlers/auth.rs: the logins with an unknown email or a wrong password.
use invoices_contracts.Base.{
  ◌≡◌, refl, sym, ap, subst, ◌∙◌, ◌&&◌, Bool, true, false, Option, none, some, arith, Text, ascii,
  find, Option-cases, inl, inr,
}
use invoices_contracts.Models.{User}
use invoices_contracts.Database.{Database}
use invoices_contracts.Database.Accounts.{has_email}
use invoices_contracts.Server.{Server, unauthorized, too_many_requests, internal_server_error}
use invoices_contracts.Program.{Try, value, stop, pure, or_return, return_early, ◌>>=◌, ok_of}
use invoices_contracts.Program.Rules.{run-bind, stop-bind}
use invoices_contracts.Auth.Config.{JwtConfig}
use invoices_contracts.Auth.Store.{
  Services, Condition, fine, no_connection, query_error, get_user_by_email_call, access,
  get_user_by_email, verify_password,
}
use invoices_contracts.Accounts.Replies.{Answer, Visit, on_db, check_limit, record_failure}
use invoices_contracts.Accounts.Login.{
  LoginRequest, LoginResponse, refused, dummy_hash, hash_of, verify_login, reject_invalid, login,
}
use invoices_contracts.Accounts.LoggedIn.{check_limit-inv}

abbrev pub limited_answer : Answer LoginResponse
limited_answer =
    refused too_many_requests (ascii "Too many login attempts. Please try again later.")

abbrev pub invalid_answer : Answer LoginResponse
invalid_answer = refused unauthorized (ascii "Invalid email or password")

and_false : (b : Bool) → (b && false) ≡ false
and_false true = refl
and_false false = refl

module _ (ext : Services) (config : JwtConfig) (v : Visit) where
  -- The email is unknown, or the password is not that of its user.
  pub data IsInvalid (db : Database) (payload : LoginRequest) : Type 0 where
    unknown_email :
        (b : Bool)
        → find (has_email payload.email) db.users ≡ none
        → verify_password ext payload.password dummy_hash ≡ some b
        → IsInvalid db payload
    wrong_password :
        (u : User)
        → find (has_email payload.email) db.users ≡ some u
        → verify_password ext payload.password u.password ≡ some false
        → IsInvalid db payload

  ask_email :
      (c : Condition) (payload : LoginRequest) (s : Server)
      → c ≡ fine
      → on_db (ok_of {F = Answer LoginResponse} (get_user_by_email c payload.email)) s
        ≡ (value (find (has_email payload.email) s.db.users), s)
  unfolding on_db ok_of get_user_by_email access
  ask_email fine payload s works = elim (Option-cases (find (has_email payload.email) s.db.users)) [
    | inl missing ↦ ground arith
    | inr (u, found) ↦ ground arith
  ]
  ask_email (no_connection e) payload s works = absurd (ground arith)
  ask_email (query_error e) payload s works = absurd (ground arith)

  verify-false :
      (o : Option User) (password : Text) (s : Server) (b : Bool)
      → verify_password ext password (hash_of o).0 ≡ some b
      → (b && (hash_of o).1) ≡ false
      → verify_login ext config o password s ≡ (value false, s)
  unfolding verify_login or_return pure
  verify-false o password s b verified wrong =
      run-bind _ _ s s b _
        (ap (λ x. or_return (refused internal_server_error (ascii "Server error")) x s) verified)
        (ap (λ x. (value x, s)) wrong)

  verify-IsInvalid :
      (payload : LoginRequest) (s : Server)
      → IsInvalid s.db payload
      → verify_login ext config (find (has_email payload.email) s.db.users) payload.password s
        ≡ (value false, s)
  verify-IsInvalid payload s (unknown_email b e k) =
      ap (λ o. verify_login ext config o payload.password s) e
      ∙ verify-false none payload.password s b k (and_false b)
  verify-IsInvalid payload s (wrong_password u e k) =
      ap (λ o. verify_login ext config o payload.password s) e
      ∙ verify-false (some u) payload.password s false k refl

  reject-false :
      (s : Server)
      → reject_invalid ext config v false s
        ≡ (stop invalid_answer, (record_failure {E = Answer LoginResponse} v s).1)
  unfolding reject_invalid return_early record_failure ◌>>=◌
  reject-false s = refl

  login-IsInvalid :
      (payload : LoginRequest) (s s1 : Server)
      → v.conditions get_user_by_email_call ≡ fine
      → check_limit limited_answer v s ≡ (value tt, s1)
      → IsInvalid s1.db payload
      → login ext config v payload s
        ≡ (stop invalid_answer, (record_failure {E = Answer LoginResponse} v s1).1)
  unfolding login
  login-IsInvalid payload s s1 works allowed bad = run-bind _ _ s s1 tt _ allowed (
      run-bind _ _ s1 s1 _ _ (ask_email _ payload s1 works) (
        run-bind _ _ s1 s1 false _ (verify-IsInvalid payload s1 bad)
          (stop-bind _ _ s1 _ invalid_answer (reject-false s1))))

  login-limited :
      (payload : LoginRequest) (s s1 : Server) (e : Answer LoginResponse)
      → check_limit limited_answer v s ≡ (stop e, s1)
      → login ext config v payload s ≡ (stop e, s1)
  unfolding login
  login-limited payload s s1 e limited = stop-bind _ _ s s1 e limited

  -- Two logins of one client in one state, each with an unknown email or a wrong password, have
  -- the same answer and leave the same state. The question for the user does not fail, and each
  -- password can be verified.
  pub invalid_logins_alike :
      (p q : LoginRequest) (s : Server)
      → v.conditions get_user_by_email_call ≡ fine
      → IsInvalid s.db p
      → IsInvalid s.db q
      → login ext config v p s ≡ login ext config v q s
  invalid_logins_alike p q s works bad bad' = go (check_limit limited_answer v s) refl
    where
      go :
          (r : Try (Answer LoginResponse) (Unit {0}) × Server)
          → check_limit limited_answer v s ≡ r
          → login ext config v p s ≡ login ext config v q s
      go (value a, s1) e =
          let same = check_limit-inv limited_answer v s s1 a e in
          login-IsInvalid p s s1 works e (subst (λ d. IsInvalid d p) same bad)
          ∙ sym (login-IsInvalid q s s1 works e (subst (λ d. IsInvalid d q) same bad'))
      go (stop a, s1) e = login-limited p s s1 a e ∙ sym (login-limited q s s1 a e)
