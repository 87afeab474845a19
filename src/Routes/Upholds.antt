-- ===== src/Routes/Upholds.antt =====
-- src/main.rs: what a request keeps, from what its handler keeps.
use invoices_contracts.Base.{refl, List, Text}
use invoices_contracts.Database.{Database}
use invoices_contracts.Server.{Server, StatusCode, Outcome, done, failed, Handler}
use invoices_contracts.Server.Keeps.{KeepsDb}
use invoices_contracts.Server.Holds.{Holds, Holds-KeepsDb}
use invoices_contracts.Program.{Try, value, stop, Program}
use invoices_contracts.Program.Rules.{Preserves, preserves_rules}
use invoices_contracts.Auth.Cookies.{AuthUser}
use invoices_contracts.Auth.Extract.{Redirect}
use invoices_contracts.Auth.Stable.{Stable, get_user_by_email-Preserves, user_exists-Preserves}
use invoices_contracts.Accounts.Replies.{on_db}
use invoices_contracts.Accounts.Setup.{check_setup}
use invoices_contracts.Auth.Keeps.{from_request_parts-Preserves}
use invoices_contracts.Accounts.Keeps.{
  login-Preserves, logout-Preserves, setup_first_user-Preserves, get_current_user-Preserves,
  update_user-Preserves,
}
use invoices_contracts.Contracts.Accounts.{
  view_contract_for_signing-KeepsDb, contract_signed_success-KeepsDb, verify_contract-KeepsDb,
  download_proof-KeepsDb, list_contracts-KeepsDb, get_contract_admin-KeepsDb,
}
use invoices_contracts.RateLimit.{Time}
use invoices_contracts.Models.{
  Customer, Invoice, ContractPayload, SignContractRequest, CreateContractRequest,
}
use invoices_contracts.Server.{Faults as ContractFaults}
use invoices_contracts.Auth.Extract.{Parts}
use invoices_contracts.Contracts.Sign.{SignInputs, sign_contract}
use invoices_contracts.Contracts.Admin.{create_contract, update_contract, delete_contract}
use invoices_contracts.Routes.Access.{SameBusiness, extracted-SameBusiness}
use invoices_contracts.Crud.{Table}
use invoices_contracts.Crud.Tables.{customer_table, invoice_table}
use invoices_contracts.Crud.Keeps.{
  find_row-Preserves, list-Preserves, create-Preserves, read_one-Preserves, update_one-Preserves,
  delete_one-Preserves,
}
use invoices_contracts.Invoices.Page.{PageFaults, view_invoice}
use invoices_contracts.Routes.{
  Environment, Resource, get_rows, post_row, get_row, put_row, delete_row, Public, get_index,
  get_login, post_login, get_verify, get_check_setup, post_setup, any_logout, get_signing,
  post_signing, get_signed, get_verification, get_proof, Protected, get_dashboard, get_profile_page,
  get_invoice, get_profile, put_profile, get_contracts, post_contract, get_contract,
  delete_of_contract, put_contract, customers, invoices, Request, public, protected, Reply,
  sent_away, respond, respond_db, handled, serve_resource, serve_public, serve_user, serve,
}

-- A property of the tables, and what every write of a handler does to it. A request may have to be
-- careful about the state in which its handler starts.
pub record Upholds {D V F : Type 0} (env : Environment D V F) (P : Database → Type 0)
    (Careful : Request → Database → Type 0) : Type 0 where
  pub stable : Stable P
  pub customers_kept :
      (rows : List Customer) (db : Database) → P db → P (record db { customers = rows })
  pub invoices_kept :
      (rows : List Invoice) (db : Database) → P db → P (record db { invoices = rows })
  pub signing_kept :
      (i : SignInputs) (id : Text) (request : SignContractRequest) (s : Server)
      → Careful (public (post_signing i id request)) s.db
      → P s.db
      → P (sign_contract env.externals i id request s).1.db
  pub creation_kept :
      (parts : Parts) (f : ContractFaults) (uuid : Text) (now : Time) (r : CreateContractRequest)
      (s : Server)
      → Careful (protected parts (post_contract f uuid now r)) s.db
      → P s.db
      → P (create_contract env.externals f uuid now r s).1.db
  pub change_kept :
      (parts : Parts) (f : ContractFaults) (id : Text) (p : ContractPayload) (s : Server)
      → Careful (protected parts (put_contract f id p)) s.db
      → P s.db
      → P (update_contract f id p s).1.db
  pub deletion_kept :
      (f : ContractFaults) (id : Text) (s : Server)
      → P s.db
      → P (delete_contract env.externals f id s).1.db
  pub still_careful :
      (parts : Parts) (r : Protected) (before after : Database)
      → SameBusiness before after
      → Careful (protected parts r) before
      → Careful (protected parts r) after

module _ (P : Database → Type 0) where
  pub answered-kept :
      {E A R : Type 0} (refuse : E → R) (answer : A → R) (r : Try E A × Server)
      → P r.1.db
      → P
          (elim (r.0) as (λ o. R × Server) [
            | value a ↦ (answer a, r.1)
            | stop e ↦ (refuse e, r.1)
          ]).1.db
  answered-kept refuse answer (value a, t) p = p
  answered-kept refuse answer (stop e, t) p = p

  respond-kept :
      {E A R : Type 0} (refuse : E → R) (answer : A → R) (m : Program Server E A)
      → Preserves (λ s. P s.db) m
      → (s : Server) → P s.db
      → P (respond refuse answer m s).1.db
  unfolding respond
  respond-kept refuse answer m k s p = answered-kept refuse answer (m s) (k.kept s p)

  respond_db-kept :
      {E A R : Type 0} (refuse : E → R) (answer : A → R) (m : Program Database E A)
      → Preserves P m
      → (s : Server) → P s.db
      → P (respond_db refuse answer m s).1.db
  unfolding respond_db on_db
  respond_db-kept refuse answer m k =
      respond-kept refuse answer (on_db m) (record { kept = λ s. k.kept s.db })

  outcome-kept :
      {A R : Type 0} (refuse : StatusCode → R) (answer : A → R) (r : Outcome A × Server)
      → P r.1.db
      → P
          (elim (r.0) as (λ o. R × Server) [
            | done a ↦ (answer a, r.1)
            | failed e ↦ (refuse e, r.1)
          ]).1.db
  outcome-kept refuse answer (done a, t) p = p
  outcome-kept refuse answer (failed e, t) p = p

  handled-kept :
      {A R : Type 0} (refuse : StatusCode → R) (answer : A → R) (m : Handler A)
      → Holds P m
      → (s : Server) → P s.db
      → P (handled refuse answer m s).1.db
  unfolding handled
  handled-kept refuse answer m k s p = outcome-kept refuse answer (m s) (k.held s p)

  page-kept :
      {A R : Type 0} (refuse : StatusCode → R) (answer : A → R) (m : Handler A)
      → KeepsDb m
      → (s : Server) → P s.db
      → P (handled refuse answer m s).1.db
  page-kept refuse answer m k = handled-kept refuse answer m (Holds-KeepsDb P m k)

  serve_resource-kept :
      {Row Payload : Type 0} (t : Table Row Payload)
      → ((rows : List Row) (db : Database) → P db → P (t.with_rows rows db))
      → (r : Resource Payload) (s : Server) → P s.db
      → P (serve_resource t r s).1.db
  unfolding serve_resource
  serve_resource-kept t aside (get_rows f) = respond_db-kept _ _ _ (list-Preserves P t aside f)
  serve_resource-kept t aside (post_row f uuid payload) =
      respond_db-kept _ _ _ (create-Preserves P t aside f uuid payload)
  serve_resource-kept t aside (get_row f id) =
      respond_db-kept _ _ _ (read_one-Preserves P t aside f id)
  serve_resource-kept t aside (put_row f id payload) =
      respond_db-kept _ _ _ (update_one-Preserves P t aside f id payload)
  serve_resource-kept t aside (delete_row f id) =
      respond_db-kept _ _ _ (delete_one-Preserves P t aside f id)

  module _ {D V F : Type 0} (env : Environment D V F) (Careful : Request → Database → Type 0)
      (law : Upholds env P Careful) where
    serve_public-kept :
        (r : Public) (s : Server) → Careful (public r) s.db → P s.db → P (serve_public env r s).1.db
    unfolding serve_public check_setup handled
    serve_public-kept get_index s h p = p
    serve_public-kept get_login s h p = p
    serve_public-kept (post_login v payload) s h p =
        respond-kept _ _ _ (login-Preserves P law.stable env.services env.config v payload) s p
    serve_public-kept (get_verify now cookie) s h p = p
    serve_public-kept (get_check_setup c) s h p =
        respond_db-kept _ _ _ (record { kept = (user_exists-Preserves P law.stable.tokens c).kept })
          s p
    serve_public-kept (post_setup v payload) s h p =
        respond-kept _ _ _
          (setup_first_user-Preserves P law.stable env.services env.config v payload) s p
    serve_public-kept (any_logout conditions j r) s h p =
        respond_db-kept _ _ _ (logout-Preserves P law.stable env.services env.config conditions j r)
          s p
    serve_public-kept (get_signing v id uuid) s h p =
        page-kept _ _ _ (view_contract_for_signing-KeepsDb env.externals v id uuid) s p
    serve_public-kept (post_signing i id request) s h p =
        outcome-kept _ _ (sign_contract env.externals i id request s)
          (law.signing_kept i id request s h p)
    serve_public-kept (get_signed v id code uuid) s h p =
        page-kept _ _ _
          (contract_signed_success-KeepsDb env.externals env.format_ist v id code uuid) s p
    serve_public-kept (get_verification v id code uuid) s h p =
        page-kept _ _ _ (verify_contract-KeepsDb env.externals v id code uuid) s p
    serve_public-kept (get_proof v id code uuid) s h p =
        page-kept _ _ _ (download_proof-KeepsDb env.externals v id code uuid) s p

    view_invoice-Preserves :
        (f : PageFaults) (user : AuthUser) (id : Text)
        → Preserves P (view_invoice env.amounts f user id)
    unfolding view_invoice
    view_invoice-Preserves f user id =
        search (preserves_rules, get_user_by_email-Preserves, find_row-Preserves) depth 20

    pub serve_user-kept :
        (parts : Parts) (r : Protected) (user : AuthUser) (s : Server)
        → Careful (protected parts r) s.db
        → P s.db
        → P (serve_user env r user s).1.db
    unfolding serve_user handled
    serve_user-kept parts get_dashboard user s h p = p
    serve_user-kept parts get_profile_page user s h p = p
    serve_user-kept parts (get_invoice f id) user s h p =
        respond_db-kept _ _ _ (view_invoice-Preserves f user id) s p
    serve_user-kept parts (get_profile conditions) user s h p =
        respond_db-kept _ _ _
          (get_current_user-Preserves P law.stable env.services env.config conditions user) s p
    serve_user-kept parts (put_profile conditions salt payload) user s h p =
        respond_db-kept _ _ _
          (update_user-Preserves P law.stable env.services env.config conditions salt user payload)
          s p
    serve_user-kept parts (get_contracts f) user s h p =
        page-kept _ _ _ (list_contracts-KeepsDb f) s p
    serve_user-kept parts (post_contract f uuid now request) user s h p =
        outcome-kept _ _ (create_contract env.externals f uuid now request s)
          (law.creation_kept parts f uuid now request s h p)
    serve_user-kept parts (get_contract f id) user s h p =
        page-kept _ _ _ (get_contract_admin-KeepsDb f id) s p
    serve_user-kept parts (put_contract f id payload) user s h p =
        outcome-kept _ _ (update_contract f id payload s) (law.change_kept parts f id payload s h p)
    serve_user-kept parts (delete_of_contract f id) user s h p = law.deletion_kept f id s p
    serve_user-kept parts (customers r) user s h p =
        serve_resource-kept customer_table law.customers_kept r s p
    serve_user-kept parts (invoices r) user s h p =
        serve_resource-kept invoice_table law.invoices_kept r s p

    found-kept :
        (parts : Parts) (r : Protected) (s : Server) (found : Try Redirect AuthUser × Database)
        → Careful (protected parts r) found.1
        → P found.1
        → P
            (elim (found.0) as (λ o. Reply D × Server) [
              | value user ↦ serve_user env r user (record s { db = found.1 })
              | stop e ↦ (sent_away e, record s { db = found.1 })
            ]).1.db
    found-kept parts r s (value user, db) h p =
        serve_user-kept parts r user (record s { db = db }) h p
    found-kept parts r s (stop e, db) h p = p

    -- A careful request keeps the property.
    pub serve-kept : (r : Request) (s : Server) → Careful r s.db → P s.db → P (serve env r s).1.db
    unfolding serve on_db
    serve-kept (public r) s h p = serve_public-kept r s h p
    serve-kept (protected parts r) s h p =
        found-kept parts r s _
          (law.still_careful parts r s.db _ (extracted-SameBusiness env parts r s _ refl) h)
          ((from_request_parts-Preserves P law.stable.tokens env.services env.config parts).kept
            s.db p)
