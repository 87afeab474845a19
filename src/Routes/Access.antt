-- ===== src/Routes/Access.antt =====
-- src/main.rs and src/auth.rs: who reaches the handler of a protected route.
use invoices_contracts.Base.{◌≡◌, refl, arith}
use invoices_contracts.Database.{Database}
use invoices_contracts.Database.Accounts.{
  insert_jwt, insert_refresh, revoke_jwt_rows, revoke_refresh_rows, insert_user, update_user_row,
}
use invoices_contracts.Server.{Server}
use invoices_contracts.Program.{Try}
use invoices_contracts.Auth.Cookies.{AuthUser}
use invoices_contracts.Auth.Extract.{Redirect, login_page, from_request_parts, Parts}
use invoices_contracts.Auth.Accept.{IsAuthentic}
use invoices_contracts.Auth.Stable.{TokenStable, Stable}
use invoices_contracts.Auth.Keeps.{from_request_parts-Preserves}
use invoices_contracts.Routes.{Environment, Protected, Reply, sent_away, serve_user}

-- The tables of the business are the same.
pub record SameBusiness (before after : Database) : Type 0 where
  pub customers : after.customers ≡ before.customers
  pub invoices : after.invoices ≡ before.invoices
  pub contracts : after.contracts ≡ before.contracts
  pub slots : after.slots ≡ before.slots
  pub signatures : after.signatures ≡ before.signatures
  pub next_slot : after.next_slot ≡ before.next_slot

unchanged : (db : Database) → SameBusiness db db
unchanged db = record {
  customers = refl;
  invoices = refl;
  contracts = refl;
  slots = refl;
  signatures = refl;
  next_slot = refl;
}

-- A property of the business is one that no write to the accounts breaks.
pub OfBusiness-Stable :
    (P : Database → Type 0)
    → ((before after : Database) → SameBusiness before after → P before → P after)
    → Stable P
unfolding insert_jwt insert_refresh revoke_jwt_rows revoke_refresh_rows insert_user update_user_row
OfBusiness-Stable P aside = record {
  tokens = record {
    insert_jwt_kept = λ new db after p e. aside db after (ground (arith, unchanged db)) p;
    insert_refresh_kept = λ new db after p e. aside db after (ground (arith, unchanged db)) p;
    revoke_jwt_kept = λ hash db. aside db _ (record {
      customers = refl;
      invoices = refl;
      contracts = refl;
      slots = refl;
      signatures = refl;
      next_slot = refl;
    });
    revoke_refresh_kept = λ hash db. aside db _ (record {
      customers = refl;
      invoices = refl;
      contracts = refl;
      slots = refl;
      signatures = refl;
      next_slot = refl;
    });
  };
  insert_user_kept = λ new db after id p e. aside db after (ground (arith, unchanged db)) p;
  update_user_kept = λ id email f db after p e. aside db after (ground (arith, unchanged db)) p;
}

-- All the tables but those of the tokens are the same, and so are their counters.
pub record SameButTokens (before after : Database) : Type 0 where
  pub business : SameBusiness before after
  pub next_signature : after.next_signature ≡ before.next_signature
  pub users : after.users ≡ before.users
  pub next_user : after.next_user ≡ before.next_user

SameButTokens-TokenStable : (before : Database) → TokenStable (SameButTokens before)
unfolding insert_jwt insert_refresh revoke_jwt_rows revoke_refresh_rows
SameButTokens-TokenStable before = record {
  insert_jwt_kept = λ new db after same e. ground (arith, same);
  insert_refresh_kept = λ new db after same e. ground (arith, same);
  revoke_jwt_kept = λ hash db same. ground (arith, same);
  revoke_refresh_kept = λ hash db same. ground (arith, same);
}

module _ {D V F : Type 0} (env : Environment D V F) (parts : Parts) (r : Protected)
    (s : Server) where
  -- The handler has run for a user who is authentic, on the tables that the extractor has left.
  pub record IsServed (reply : Reply D) (t : Server) : Type 0 where
    pub user : AuthUser
    pub authenticated : Database
    pub authentic : IsAuthentic env.services env.config parts s.db user
    pub same : SameButTokens s.db authenticated
    pub ran : serve_user env r user (record s { db = authenticated }) ≡ (reply, t)

  -- The request was sent to the login page.
  pub record IsSentAway (reply : Reply D) (t : Server) : Type 0 where
    pub redirection : reply ≡ sent_away login_page
    pub same : SameButTokens s.db t.db
    pub limiter : t.limiter ≡ s.limiter

  extracted-SameButTokens :
      (found : Try Redirect AuthUser × Database)
      → from_request_parts env.services env.config parts s.db ≡ found
      → SameButTokens s.db found.1
  extracted-SameButTokens found e = rw (← e) (
      (from_request_parts-Preserves (SameButTokens s.db) (SameButTokens-TokenStable s.db)
          env.services env.config parts).kept
        s.db
        (record {
          business = unchanged s.db;
          next_signature = refl;
          users = refl;
          next_user = refl;
        }))

  pub extracted-SameBusiness :
      (found : Try Redirect AuthUser × Database)
      → from_request_parts env.services env.config parts s.db ≡ found
      → SameBusiness s.db found.1
  extracted-SameBusiness found e = (extracted-SameButTokens found e).business
