-- ===== src/Routes/Users.antt =====
-- src/main.rs and src/handlers/auth.rs: the setup, over all sequences of requests to all routes.
use invoices_contracts.Base.{
  ◌≡◌, refl, ap, ◌∙◌, true, ◌⊎◌, List, [], ◌∷◌, arith, length, length-append, ltb, update,
}
use invoices_contracts.Base.Int.{ℤ}
use invoices_contracts.Models.{User}
use invoices_contracts.Database.{Database}
use invoices_contracts.Database.Accounts.{
  is_user, user_row, insert_jwt, insert_refresh, revoke_jwt_rows, revoke_refresh_rows, insert_user,
  update_user_row,
}
use invoices_contracts.Server.{Server}
use invoices_contracts.Program.{value, stop}
use invoices_contracts.Auth.Store.{fine, user_exists_call}
use invoices_contracts.Accounts.Replies.{Answer, Visit}
use invoices_contracts.Accounts.Setup.{SetupRequest, SetupResponse, already_done, setup_first_user}
use invoices_contracts.Accounts.FirstUser.{
  limited_setup, setup_first_user-IsSetup, setup_first_user-refused,
}
use invoices_contracts.Routes.{
  Environment, Request, public, post_setup, Reply, setup_reply, respond, serve_public, serve,
  serve_all,
}
use invoices_contracts.Routes.Keeps.{OfAccounts, serve_all-kept}

-- Somebody has an account.
record HasUser (db : Database) : Type 0 where
  someone : ltb 0 (length db.users) ≡ true

length-update_user :
    (id : ℤ) (f : User → User) (us : List User) → length (update (is_user id) f us) ≡ length us
length-update_user id f [] = refl
length-update_user id f (u ∷ us) = ground (arith, length-update_user id f us)

HasUser-OfAccounts : OfAccounts HasUser
unfolding insert_jwt insert_refresh revoke_jwt_rows revoke_refresh_rows insert_user update_user_row
HasUser-OfAccounts = record {
  stable = record {
    tokens = record {
      insert_jwt_kept = λ new db after h e. ground (arith, h.someone);
      insert_refresh_kept = λ new db after h e. ground (arith, h.someone);
      revoke_jwt_kept = λ hash db h. ground (arith, h.someone);
      revoke_refresh_kept = λ hash db h. ground (arith, h.someone);
    };
    insert_user_kept = λ new db after id h e.
        ground (arith, h.someone, length-append db.users (user_row db.next_user new ∷ []));
    update_user_kept =
        λ id email f db after h e. ground (arith, h.someone, length-update_user id f db.users);
  };
  aside = λ before after same h. record {
    someone = ap (λ us. ltb 0 (length us)) same.users ∙ h.someone;
  };
}

first_of :
    (us : List User) → ltb 0 (length us) ≡ true → (u : User) × (rest : List User) × (us ≡ u ∷ rest)
first_of [] h = absurd (ground arith)
first_of (u ∷ us) h = (u, us, refl)

module _ {D V F : Type 0} (env : Environment D V F) where
  setup-served :
      (w : Visit) (again : SetupRequest) (s t : Server) (e : Answer SetupResponse)
      → setup_first_user env.services env.config w again s ≡ (stop e, t)
      → serve env (public (post_setup w again)) s ≡ (setup_reply e, t)
  unfolding serve serve_public respond
  setup-served w again s t e h =
      ap
        (λ r. elim (r.0) as (λ o. Reply D × Server) [
          | value a ↦ (setup_reply a, r.1)
          | stop x ↦ (setup_reply x, r.1)
        ])
        h

  HasUser-refused :
      (w : Visit) (again : SetupRequest) (s : Server)
      → HasUser s.db
      → w.conditions user_exists_call ≡ fine
      → (e : Answer SetupResponse) × (t : Server) × (serve env (public (post_setup w again)) s
          ≡ (setup_reply e, t))
        × ((e ≡ already_done) ⊎ (e ≡ limited_setup))
        × (s.db ≡ t.db)
  HasUser-refused w again s h works =
      let (u, us, there) = first_of s.db.users h.someone in
      let (e, t, refused, which, same) =
        setup_first_user-refused env.services env.config w again s u us works there in
      (e, t, setup-served w again s t e refused, which, same)

  -- After a setup that succeeds, whatever requests follow to whatever routes, a setup is refused,
  -- as done already or as tried too often, and leaves the tables as they are. Neither question for
  -- users fails.
  pub setup_refused_for_good :
      (v w : Visit) (payload again : SetupRequest) (s t : Server) (a : Answer SetupResponse)
      (later : List Request)
      → v.conditions user_exists_call ≡ fine
      → w.conditions user_exists_call ≡ fine
      → setup_first_user env.services env.config v payload s ≡ (value a, t)
      → let end = serve_all env later t in
        (e : Answer SetupResponse) × (after : Server) × (serve env (public (post_setup w again)) end
          ≡ (setup_reply e, after))
        × ((e ≡ already_done) ⊎ (e ≡ limited_setup))
        × (end.db ≡ after.db)
  setup_refused_for_good v w payload again s t a later works works' done =
      let first = setup_first_user-IsSetup env.services env.config v payload s t a works done in
      HasUser-refused w again _
        (serve_all-kept HasUser env HasUser-OfAccounts later t
          (record { someone = ap (λ us. ltb 0 (length us)) first.user }))
        works'
