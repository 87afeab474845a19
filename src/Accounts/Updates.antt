-- ===== src/Accounts/Updates.antt =====
-- src/handlers/auth.rs: the changes of a profile that succeed.
use invoices_contracts.Base.{
  ◌≡◌, refl, sym, ap, subst, ◌∙◌, inl, inr, false, not, ◌&&◌, Bool-cases, Option, none, some, arith,
  Text, text_eq, nat_eq, any, find, update,
}
use invoices_contracts.Base.Int.{ℤ, int_eq}
use invoices_contracts.Models.{User}
use invoices_contracts.Database.{Database}
use invoices_contracts.Database.Accounts.{has_email, is_user, update_user_row}
use invoices_contracts.Program.{value}
use invoices_contracts.Program.Rules.{split_bind, map_err-inv, subst-pure}
use invoices_contracts.Auth.Store.{Services, Condition, Call, insertion}
use invoices_contracts.Auth.Dead.{access-inv}
use invoices_contracts.Auth.Cookies.{AuthUser}
use invoices_contracts.Accounts.Profile.{
  UpdateUserRequest, UpdateAnswer, new_password_hash, changed, update_user,
}
use invoices_contracts.Accounts.UpdateChecks.{
  get_user-inv, IsFitting, check_update-inv, PasswordChange, password_change,
}

module _ (ext : Services) where
  -- The password of a row: the hash of the new one, or the old one.
  abbrev pub hash_or : Option Text → Text → Text
  hash_or (some new) old = new
  hash_or none old = old

  -- What a change that succeeds tells: the user of the session, what became of its password, and
  -- that the rows with its id, and nothing else, have the texts of the request.
  pub record IsUpdate (salt : Text) (user : AuthUser) (payload : UpdateUserRequest)
      (before after : Database) : Type 0 where
    pub fitting : IsFitting payload
    pub current : User
    pub current_found : find (has_email user.email) before.users ≡ some current
    pub hash : Option Text
    pub password : PasswordChange ext salt current payload hash
    pub email_free :
        any (λ u. not (is_user current.id u) && has_email payload.email u) before.users ≡ false
    pub stored : after ≡ record before {
      users =
          update
            (is_user current.id)
            (λ u. record {
              id = u.id;
              name = payload.name;
              email = payload.email;
              address = payload.address;
              tax_id = payload.tax_id;
              password = hash_or hash u.password;
            })
            before.users;
    }

  update_row-inv :
      (id : ℤ) (email : Text) (f : User → User) (s t : Database) (a : Unit {0})
      → insertion (update_user_row id email f s) s ≡ (value a, t)
      → (any (λ u. not (is_user id u) && has_email email u) s.users ≡ false)
        × (t ≡ record s { users = update (is_user id) f s.users })
  unfolding insertion update_user_row
  update_row-inv id email f s t a h =
      elim (Bool-cases (any (λ u. not (is_user id u) && has_email email u) s.users)) [
        | inl taken ↦ absurd (ground arith)
        | inr free ↦ (free, ground arith)
      ]

  -- The profile that is written is that of the request.
  changed-eq :
      (payload : UpdateUserRequest) (hash : Option Text) (u : User)
      → changed ext payload hash u ≡ record {
        id = u.id;
        name = payload.name;
        email = payload.email;
        address = payload.address;
        tax_id = payload.tax_id;
        password = hash_or hash u.password;
      }
  changed-eq payload none u = refl
  changed-eq payload (some h) u = refl

  -- A change of a profile that succeeds was asked for with texts of the allowed lengths and form,
  -- and changes the users alone: the rows with the id of the session's user get the name, the
  -- email, the address and the tax id of the request, and no other row has the new email. The
  -- password is kept, or replaced by the hash of a new one of 8 to 128 bytes where the request has
  -- the current password.
  pub update_user-IsUpdate :
      (conditions : Call → Condition) (salt : Text) (user : AuthUser) (payload : UpdateUserRequest)
      (s t : Database) (a : UpdateAnswer)
      → update_user ext conditions salt user payload s ≡ (value a, t)
      → IsUpdate salt user payload s t
  unfolding update_user
  update_user-IsUpdate conditions salt user payload s t a h = split_bind _ _ s t a h (λ a1 s1 e1 h1.
      split_bind _ _ s1 t a h1 (λ current s2 e2 h2. split_bind _ _ s2 t a h2 (λ hash s3 e3 h3.
        split_bind _ _ s3 t a h3 (λ a4 s4 e4 h4.
          let (same1, fitting, (b, checked)) = check_update-inv payload s s1 a1 e1 in
          let (same2, found) =
            get_user-inv _ user.email s1 s2 current (map_err-inv _ _ s1 s2 current e2) in
          let start = sym (same1 ∙ same2) in
          let (same3, change) = password_change ext salt current payload s s3 hash b checked (
            subst
              (λ d.
                new_password_hash ext salt current payload.current_password payload.new_password d
                ≡ (value hash, s3))
              start e3) in
          let (free, rows) =
            update_row-inv current.id payload.email (changed ext payload hash) s3 s4 a4
              (access-inv _ _ s3 s4 a4 (map_err-inv _ _ s3 s4 a4 e4)) in
          subst-pure (λ x u. IsUpdate salt user payload s u) _ a s4 t h4
            (record {
              fitting = fitting;
              current = current;
              current_found = ap (λ d. find (has_email user.email) d.users) same1 ∙ found;
              hash = hash;
              password = change;
              email_free =
                  ap
                    (λ d.
                      any (λ u. not (is_user current.id u) && has_email payload.email u) d.users)
                    same3
                  ∙ free;
              stored =
                  rows
                  ∙ ap {A = Database}
                      (λ d. record d {
                        users = update (is_user current.id) (changed ext payload hash) d.users;
                      })
                      (sym same3)
                  ∙ ap {A = User → User}
                      (λ f. record s { users = update (is_user current.id) f s.users })
                      (λ i u. changed-eq payload hash u i);
            })))))
