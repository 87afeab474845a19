-- ===== src/Accounts/Tests.antt =====
-- The account handlers, run on a small server.
use invoices_contracts.Base.{
  ◌≡◌, ◌*◌, refl, true, false, [], ◌∷◌, some, arith, Text, text_beq, ascii, find, text_eq, ◌⊎◌,
}
use invoices_contracts.Base.Int.{pos}
use invoices_contracts.Models.{User}
use invoices_contracts.Database.{Database}
use invoices_contracts.Database.Accounts.{
  has_email, insert_jwt, insert_refresh, insert_user, update_user_row,
}
use invoices_contracts.RateLimit.Table.{lookup, retain}
use invoices_contracts.RateLimit.{check_rate_limit, reset_attempts}
use invoices_contracts.Server.{Server, ok, created, internal_server_error}
use invoices_contracts.Program.{value, stop, pure, or_return, ◌>>=◌, map_err}
use invoices_contracts.Crypto.Toy.{encode}
use invoices_contracts.Auth.Store.{
  access, insertion, second, verify_password, generate_jwt, hash_token, store_jwt,
  generate_refresh_token, store_refresh_token, get_user_by_email, user_exists,
}
use invoices_contracts.Auth.Toy.{services, config, calm}
use invoices_contracts.Accounts.Replies.{Answer, session_cookies, on_db, check_limit, reset}
use invoices_contracts.Accounts.Login.{LoginResponse, issue_tokens, login}
use invoices_contracts.Accounts.Invalid.{
  IsInvalid, wrong_password, unknown_email, invalid_logins_alike,
}
use invoices_contracts.Accounts.Setup.{
  SetupResponse, already_done, setup_first_user, ask_users, allow_setup, insert_returning,
}
use invoices_contracts.Accounts.FirstUser.{IsSetup, limited_setup, set_up_once}
use invoices_contracts.Accounts.Profile.{
  check_update, check_password, new_password_hash, update_user, get_current_user,
}
use invoices_contracts.Accounts.Updates.{IsUpdate, update_user-IsUpdate}
use invoices_contracts.Accounts.Stale.{IsUnique, email_change-stale}
use invoices_contracts.Accounts.World.{home, at, guess, stranger, found, move, ann, ann_session}

abbrev pub token : Text
token = 1000 ∷ (100 ∷ (0 ∷ (1 ∷ ascii "ann@x.y")))

abbrev pub raw : Text
raw = ascii "ge"

abbrev pub welcome : Answer LoginResponse
welcome = record {
  status = ok;
  body = record {
    success = true;
    message = ascii "Login successful";
    user = some (record { id = pos 1; name = ascii "Ann"; email = ascii "ann@x.y" });
  };
  cookies = session_cookies token raw;
}

-- What the login leaves.
abbrev pub inside : Server
inside = record home {
  db = record home.db {
    jwt_tokens =
        record {
          id = pos 1;
          user_id = pos 1;
          token_hash = encode token;
          expires_at = 1000 * second ∷ [];
          created_at = 100 * second ∷ [];
          revoked = false;
        }
        ∷ [];
    refresh_tokens =
        record {
          id = pos 1;
          user_id = pos 1;
          token_hash = encode raw;
          expires_at = 604900 * second ∷ [];
          created_at = 100 * second ∷ [];
          revoked = false;
        }
        ∷ [];
    next_jwt = 2;
    next_refresh = 2;
  };
}

guess-IsInvalid : IsInvalid services config (at 100) home.db guess
unfolding text_beq verify_password
guess-IsInvalid = wrong_password ann refl refl

stranger-IsInvalid : IsInvalid services config (at 100) home.db stranger
unfolding text_beq verify_password
stranger-IsInvalid = unknown_email false refl refl

invalid_logins_alike_example :
    login services config (at 100) guess home ≡ login services config (at 100) stranger home
invalid_logins_alike_example =
    invalid_logins_alike services config (at 100) guess stranger home refl guess-IsInvalid
      stranger-IsInvalid

abbrev pub nobody : Server
nobody = record home { db = record home.db { users = []; next_user = 1 } }

abbrev pub founded : Answer SetupResponse
founded = record {
  status = created;
  body = record {
    success = true;
    message = ascii "Setup complete! Welcome to PixlW Invoices.";
    redirect = some (ascii "/dashboard");
  };
  cookies = session_cookies token raw;
}

unfoldable pub set_up : Server
set_up = (setup_first_user services config (at 100) found nobody).1

pub sets_up : setup_first_user services config (at 100) found nobody ≡ (value founded, set_up)
unfolding set_up setup_first_user ◌>>=◌ check_limit check_rate_limit lookup retain ask_users
    allow_setup user_exists access on_db map_err insert_returning insert_user issue_tokens
    generate_jwt store_jwt insertion reset generate_refresh_token hash_token store_refresh_token
    text_beq encode insert_jwt insert_refresh reset_attempts or_return pure
sets_up = refl

set_up_once_example :
    IsSetup services config (at 100) found nobody.db set_up.db founded
    × ((e : Answer SetupResponse) × (end : Server) × (setup_first_user services config
            (at 200)
            found
            set_up
          ≡ (stop e, end))
        × ((e ≡ already_done) ⊎ (e ≡ limited_setup))
        × (set_up.db ≡ end.db))
set_up_once_example =
    set_up_once services config (at 100) (at 200) found found nobody set_up founded refl refl
      sets_up

moved : Database
moved = (update_user services calm [] ann_session move home.db).1

moves :
    update_user services calm [] ann_session move home.db
    ≡ (value (ok, ascii "Profile updated successfully"), moved)
unfolding moved update_user ◌>>=◌ check_update check_password map_err get_user_by_email access
    text_beq new_password_hash verify_password insertion update_user_row
moves = refl

update_user-IsUpdate_example : IsUpdate services [] ann_session move home.db moved
update_user-IsUpdate_example =
    update_user-IsUpdate services calm [] ann_session move home.db moved _ moves

ann_alone :
    (u : User)
    → find (has_email ann_session.email) home.db.users ≡ some u
    → IsUnique u.id ann_session.email home.db
unfolding text_beq
ann_alone u e = ground arith

email_change-stale_example :
    get_current_user calm ann_session moved ≡ (stop internal_server_error, moved)
unfolding text_beq
email_change-stale_example =
    email_change-stale services calm calm [] ann_session move home.db moved _ moves refl ann_alone
      refl
