-- ===== src/Routes/Keeps.antt =====
-- src/main.rs: what every request keeps. A property of users and tokens that no write to these
-- tables breaks is kept by all routes, since the others write to other tables.
use invoices_contracts.Base.{refl, List, [], ◌∷◌}
use invoices_contracts.Database.{Database}
use invoices_contracts.Server.{Server}
use invoices_contracts.Auth.Cookies.{AuthUser}
use invoices_contracts.Auth.Extract.{Parts}
use invoices_contracts.Auth.Stable.{Stable}
use invoices_contracts.Contracts.Accounts.{
  SameAccounts, sign_contract-Holds, create_contract-Holds, update_contract-Holds,
  delete_contract-Holds,
}
use invoices_contracts.Routes.{Environment, Request, Protected, serve, serve_user, serve_all}
use invoices_contracts.Routes.Upholds.{Upholds}
use invoices_contracts.Routes.Upholds

-- A property of the accounts that no write to them breaks.
pub record OfAccounts (P : Database → Type 0) : Type 0 where
  pub stable : Stable P
  pub aside : (before after : Database) → SameAccounts before after → P before → P after

module _ (P : Database → Type 0) {D V F : Type 0} (env : Environment D V F)
    (law : OfAccounts P) where
  OfAccounts-Upholds : Upholds env P (λ r db. Unit {0})
  OfAccounts-Upholds = record {
    stable = law.stable;
    customers_kept = λ rows db.
        law.aside db _ (record { users = refl; jwt_tokens = refl; refresh_tokens = refl });
    invoices_kept = λ rows db.
        law.aside db _ (record { users = refl; jwt_tokens = refl; refresh_tokens = refl });
    signing_kept =
        λ i id request s h. (sign_contract-Holds P law.aside env.externals i id request).held s;
    creation_kept = λ parts f uuid now r s h.
        (create_contract-Holds P law.aside env.externals f uuid now r).held s;
    change_kept = λ parts f id p s h. (update_contract-Holds P law.aside f id p).held s;
    deletion_kept = delete_contract-Holds P law.aside env.externals;
    still_careful = λ parts r before after same h. h;
  }

  pub serve_user-kept :
      (parts : Parts) (r : Protected) (user : AuthUser) (s : Server)
      → P s.db
      → P (serve_user env r user s).1.db
  serve_user-kept parts r user s p =
      Upholds.serve_user-kept P env (λ r db. Unit {0}) OfAccounts-Upholds parts r user s tt p

  -- Every sequence of requests keeps the property.
  pub serve_all-kept : (rs : List Request) (s : Server) → P s.db → P (serve_all env rs s).db
  unfolding serve_all
  serve_all-kept [] s p = p
  serve_all-kept (r ∷ rs) s p =
      serve_all-kept rs (serve env r s).1
        (Upholds.serve-kept P env (λ r db. Unit {0}) OfAccounts-Upholds r s tt p)
