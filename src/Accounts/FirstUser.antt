-- ===== src/Accounts/FirstUser.antt =====
-- src/handlers/auth.rs: the user that `setup_first_user` adds, and the setups after it.
use invoices_contracts.Base.{
  ◌≡◌, refl, sym, ap, subst, ◌∙◌, Bool, true, false, List, [], ◌∷◌, ◌++◌, some, arith, Text, ascii,
  any, length, ltb, ◌⊎◌, inl, inr,
}
use invoices_contracts.Base.Int.{ℤ, pos}
use invoices_contracts.Models.{User, CreateFullUser}
use invoices_contracts.Database.{Database}
use invoices_contracts.Database.Accounts.{has_email, user_row, insert_user}
use invoices_contracts.Server.{Server, created, too_many_requests}
use invoices_contracts.Program.{Try, value, stop, pure, return_early}
use invoices_contracts.Program.Rules.{
  split_bind, or_return-inv, map_err-inv, subst-pure, run-bind, stop-bind,
}
use invoices_contracts.Auth.Config.{JwtConfig}
use invoices_contracts.Auth.Store.{
  AuthError, Services, Condition, fine, no_connection, query_error, user_exists_call, access,
  user_exists,
}
use invoices_contracts.Auth.Dead.{access-inv}
use invoices_contracts.Accounts.Replies.{Answer, Visit, session_cookies, check_limit, reset}
use invoices_contracts.Accounts.Setup.{
  SetupRequest, SetupResponse, refused, already_done, insert_returning, allow_setup, ask_users,
  setup_first_user,
}
use invoices_contracts.Accounts.Issued.{IsSession, issue_tokens-inv, on_db-inv}
use invoices_contracts.Accounts.LoggedIn.{check_limit-inv}

abbrev pub limited_setup : Answer SetupResponse
limited_setup = refused too_many_requests (ascii "Too many setup attempts. Please try again later.")

check_limit-stops :
    {E : Type 0} (e : E) (v : Visit) (s t : Server) (x : E)
    → check_limit e v s ≡ (stop x, t)
    → (x ≡ e) × (s.db ≡ t.db)
unfolding check_limit
check_limit-stops e v s t x h = (ground arith, ground arith)

no_users : (us : List User) → ltb 0 (length us) ≡ false → us ≡ []
no_users [] e = refl
no_users (u ∷ us) e = absurd (ground arith)

ask_users-empty :
    (ext : Services) (config : JwtConfig) (c : Condition) (s s1 s2 : Server)
    (r : Try AuthError Bool) (a : Unit {0})
    → c ≡ fine
    → ask_users ext config c s ≡ (value r, s1)
    → allow_setup ext config r s1 ≡ (value a, s2)
    → (s.db.users ≡ []) × (s ≡ s1) × (s1 ≡ s2)
unfolding ask_users user_exists access allow_setup pure return_early
ask_users-empty ext config fine s s1 s2 (value true) a works h k = absurd (ground arith)
ask_users-empty ext config fine s s1 s2 (value false) a works h k =
    (no_users s.db.users (ground arith), ground arith, ground arith)
ask_users-empty ext config fine s s1 s2 (stop e) a works h k = absurd (ground arith)
ask_users-empty ext config (no_connection e) s s1 s2 r a works h k = absurd (ground arith)
ask_users-empty ext config (query_error e) s s1 s2 r a works h k = absurd (ground arith)

insert_user-empty :
    (new : CreateFullUser) (s t : Database) (id : ℤ)
    → s.users ≡ []
    → insert_returning (insert_user new s) s ≡ (value id, t)
    → (t.users ≡ user_row s.next_user new ∷ []) × (id ≡ pos s.next_user)
unfolding insert_returning insert_user
insert_user-empty new s t id empty h =
    let free : any (has_email new.email) s.users ≡ false = ap (any (has_email new.email)) empty in
    let rows : t.users ≡ s.users ++ user_row s.next_user new ∷ [] = ground arith in
    (rows ∙ ap (λ us. us ++ user_row s.next_user new ∷ []) empty, ground arith)

abbrev pub first_user : SetupRequest → Text → CreateFullUser
first_user payload password_hash = record {
  name = payload.name;
  email = payload.email;
  address = payload.address;
  tax_id = payload.tax_id;
  password = password_hash;
}

module _ (ext : Services) (config : JwtConfig) where
  -- What a setup that succeeds tells: there was no user, and now there is the one of the request, with
  -- the hash of its password, and its session, which the cookies of the answer carry.
  pub record IsSetup (v : Visit) (payload : SetupRequest) (before after : Database)
      (a : Answer SetupResponse) : Type 0 where
    pub nobody : before.users ≡ []
    pub password_hash : Text
    pub hashed : ext.hash v.salt payload.password ≡ some password_hash
    pub user : after.users ≡ user_row before.next_user (first_user payload password_hash) ∷ []
    pub tokens : Text × Text
    pub session :
        IsSession ext config v (pos before.next_user) payload.email tokens.0 tokens.1 after
    pub carried : (a.status ≡ created) × (a.cookies ≡ session_cookies tokens.0 tokens.1)

  pub setup_first_user-IsSetup :
      (v : Visit) (payload : SetupRequest) (s t : Server) (a : Answer SetupResponse)
      → v.conditions user_exists_call ≡ fine
      → setup_first_user ext config v payload s ≡ (value a, t)
      → IsSetup v payload s.db t.db a
  unfolding setup_first_user reset
  setup_first_user-IsSetup v payload s t a works h = split_bind _ _ s t a h (λ r1 s1 e1 h1.
      split_bind _ _ s1 t a h1 (λ o s2 e2 h2. split_bind _ _ s2 t a h2 (λ r3 s3 e3 h3.
        split_bind _ _ s3 t a h3 (λ hash s4 e4 h4. split_bind _ _ s4 t a h4 (λ id s5 e5 h5.
          split_bind _ _ s5 t a h5 (λ tokens s6 e6 h6. split_bind _ _ s6 t a h6 (λ r7 s7 e7 h7.
            let (empty, same2, same3) = ask_users-empty ext config _ s1 s2 s3 o r3 works e2 e3 in
            let (hashed, same4) = or_return-inv _ _ s3 s4 hash e4 in
            let start : s4.db ≡ s.db =
              ap (λ x. x.db) (sym (same2 ∙ same3 ∙ same4)) ∙ sym (check_limit-inv _ v s s1 r1 e1) in
            let nobody = ap (λ d. d.users) (check_limit-inv _ v s s1 r1 e1) ∙ empty in
            let inserted =
              subst
                (λ d.
                  insert_returning (insert_user (first_user payload hash) d) d ≡ (value id, s5.db))
                start (access-inv _ _ _ _ id (map_err-inv _ _ _ _ id (on_db-inv _ s4 s5 id e5))) in
            let (row, is_id) = insert_user-empty _ s.db s5.db id nobody inserted in
            let (session, kept) =
              issue_tokens-inv ext config _ v id payload.email s5 s6 tokens e6 in
            let end : s6.db ≡ s7.db = ground arith in
            subst-pure (λ x u. IsSetup v payload s.db u.db x) _ a s7 t h7
              (record {
                nobody = nobody;
                password_hash = hash;
                hashed = hashed;
                user = ap (λ d. d.users) (sym end) ∙ kept ∙ row;
                tokens = tokens;
                session =
                    subst
                      (λ d.
                        IsSession ext config v (pos s.db.next_user) payload.email tokens.0 tokens.1
                          d)
                      end
                      (subst (λ i. IsSession ext config v i payload.email tokens.0 tokens.1 s6.db)
                        is_id session);
                carried = (refl, refl);
              }))))))))

  ask_users-some :
      (c : Condition) (s : Server) (u : User) (us : List User)
      → c ≡ fine
      → s.db.users ≡ u ∷ us
      → ask_users ext config c s ≡ (value (value true), s)
  unfolding ask_users user_exists access
  ask_users-some fine s u us works some_user =
      let some_there = ap (λ rows. ltb 0 (length rows)) some_user in ground arith
  ask_users-some (no_connection e) s u us works some_user = absurd (ground arith)
  ask_users-some (query_error e) s u us works some_user = absurd (ground arith)

  -- With a user there, and a question for users that does not fail, a setup is refused.
  pub setup_first_user-refused :
      (w : Visit) (again : SetupRequest) (s : Server) (u : User) (us : List User)
      → w.conditions user_exists_call ≡ fine
      → s.db.users ≡ u ∷ us
      → (e : Answer SetupResponse) × (t : Server) × (setup_first_user ext config w again s
          ≡ (stop e, t))
        × ((e ≡ already_done) ⊎ (e ≡ limited_setup))
        × (s.db ≡ t.db)
  unfolding setup_first_user allow_setup return_early
  setup_first_user-refused w again s u us works some_user = go (check_limit limited_setup w s) refl
    where
      go :
          (r : Try (Answer SetupResponse) (Unit {0}) × Server)
          → check_limit limited_setup w s ≡ r
          → (e : Answer SetupResponse) × (t : Server) × (setup_first_user ext config w again s
              ≡ (stop e, t))
            × ((e ≡ already_done) ⊎ (e ≡ limited_setup))
            × (s.db ≡ t.db)
      go (value a, s1) e =
          let same = check_limit-inv limited_setup w s s1 a e in
          (
            already_done,
            s1,
            run-bind _ _ s s1 tt _ e (
                run-bind _ _ s1 s1 _ _
                  (ask_users-some _ s1 u us works (ap (λ d. d.users) (sym same) ∙ some_user))
                  (stop-bind _ _ s1 s1 already_done refl)),
            inl refl,
            same,
          )
      go (stop x, s1) e =
          let (is_limit, same) = check_limit-stops limited_setup w s s1 x e in
          (x, s1, stop-bind _ _ s s1 x e, inr is_limit, same)

  -- A setup that succeeds met no user, and leaves one user, that of the request with the hash of
  -- its password, with a session; the setup after it fails, as done already or as tried too often,
  -- and leaves the database as it is. Neither question for users fails.
  pub set_up_once :
      (v w : Visit) (payload again : SetupRequest) (s t : Server) (a : Answer SetupResponse)
      → v.conditions user_exists_call ≡ fine
      → w.conditions user_exists_call ≡ fine
      → setup_first_user ext config v payload s ≡ (value a, t)
      → IsSetup v payload s.db t.db a
        × ((e : Answer SetupResponse) × (end : Server) × (setup_first_user ext config w again t
              ≡ (stop e, end))
            × ((e ≡ already_done) ⊎ (e ≡ limited_setup))
            × (t.db ≡ end.db))
  set_up_once v w payload again s t a works works' done =
      let first = setup_first_user-IsSetup v payload s t a works done in
      (first, setup_first_user-refused w again t _ _ works' first.user)
