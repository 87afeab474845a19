-- ===== src/Accounts/Stale.antt =====
-- src/handlers/auth.rs: a session whose email was changed. The claims of an access token carry the
-- email, which the handlers look up.
use invoices_contracts.Base.{
  ◌≡◌, refl, ap, ◌∙◌, false, not, ◌&&◌, List, [], ◌∷◌, none, some, arith, Text, ◌==◌, text_eq, any,
  find, update,
}
use invoices_contracts.Base.Int.{ℤ, int_eq}
use invoices_contracts.Models.{User}
use invoices_contracts.Database.{Database}
use invoices_contracts.Database.Accounts.{has_email, is_user}
use invoices_contracts.Server.{internal_server_error}
use invoices_contracts.Program.{value, stop}
use invoices_contracts.Program.Rules.{stop-bind, map_err-stop}
use invoices_contracts.Auth.Store.{
  user_not_found, Services, Condition, fine, no_connection, query_error, Call,
  get_user_by_email_call, access, get_user_by_email,
}
use invoices_contracts.Auth.Cookies.{AuthUser}
use invoices_contracts.Accounts.Profile.{
  UpdateUserRequest, UpdateAnswer, get_current_user, update_user,
}
use invoices_contracts.Accounts.Updates.{update_user-IsUpdate}

-- No row but those with the id has the email.
abbrev pub IsUnique : ℤ → Text → Database → Type 0
IsUnique id email db = any (λ u. not (is_user id u) && has_email email u) db.users ≡ false

find-update-none :
    (id : ℤ) (email : Text) (f : User → User) (us : List User)
    → any (λ u. not (is_user id u) && has_email email u) us ≡ false
    → ((u : User) → has_email email (f u) ≡ false)
    → find (has_email email) (update (is_user id) f us) ≡ none
find-update-none id email f [] e k = refl
find-update-none id email f (u ∷ us) e k = ground (arith, find-update-none id email f us, k u)

get_user-none :
    (c : Condition) (email : Text) (s : Database)
    → c ≡ fine
    → find (has_email email) s.users ≡ none
    → get_user_by_email c email s ≡ (stop (user_not_found email), s)
unfolding get_user_by_email access
get_user-none fine email s works e = ground arith
get_user-none (no_connection t) email s works e = absurd (ground arith)
get_user-none (query_error t) email s works e = absurd (ground arith)

module _ (ext : Services) where
  -- After a user has changed the email, the profile that the same session asks for is an internal
  -- server error. The old email was that of this user alone, and the look-up does not fail.
  pub email_change-stale :
      (conditions later : Call → Condition) (salt : Text) (user : AuthUser)
      (payload : UpdateUserRequest) (s t : Database) (a : UpdateAnswer)
      → update_user ext conditions salt user payload s ≡ (value a, t)
      → (payload.email == user.email) ≡ false
      → ((u : User) → find (has_email user.email) s.users ≡ some u → IsUnique u.id user.email s)
      → later get_user_by_email_call ≡ fine
      → get_current_user later user t ≡ (stop internal_server_error, t)
  unfolding get_current_user
  email_change-stale conditions later salt user payload s t a h differs unique works =
      let update = update_user-IsUpdate ext conditions salt user payload s t a h in
      let missing =
        ap (λ d. find (has_email user.email) d.users) update.stored
        ∙ find-update-none update.current.id user.email _ s.users
            (unique update.current update.current_found) (λ u. differs) in
      stop-bind _ _ t t internal_server_error (
        map_err-stop _ t t _ (user_not_found user.email)
          (get_user-none _ user.email t works missing))
