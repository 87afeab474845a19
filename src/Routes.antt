-- ===== src/Routes.antt =====
-- src/main.rs and src/handlers/crud.rs: the routes of the server. A request names its route and
-- brings what the handler reads; a protected one runs the extractor first. axum, which reads paths,
-- headers and bodies, stands before this.
pub mod Upholds
pub mod Keeps
pub mod Access
pub mod Users
pub mod Sessions
pub mod History
pub mod Owned
pub mod Tests
mod HistoryTests
use invoices_contracts.Base.{Bool, List, [], ◌∷◌, Option, Text, ascii}
use invoices_contracts.RateLimit.{Time}
use invoices_contracts.Models.{
  Customer, CustomerPayload, Invoice, InvoicePayload, Contract, ContractPayload,
  CreateContractRequest, SignContractRequest, SignContractResponse,
}
use invoices_contracts.Database.{Database}
use invoices_contracts.Server.{Server, StatusCode, done, failed, Handler, ok, created}
use invoices_contracts.Server.{Faults as ContractFaults}
use invoices_contracts.Program.{value, stop, Program}
use invoices_contracts.Auth.Config.{JwtConfig}
use invoices_contracts.Auth.Store.{Services, Condition, Call}
use invoices_contracts.Auth.Cookies.{AuthUser, apply_refreshed_cookies}
use invoices_contracts.Auth.Extract.{Redirect, Parts, from_request_parts}
use invoices_contracts.Accounts.Replies.{Answer, Visit, on_db}
use invoices_contracts.Accounts.Login.{LoginRequest, LoginResponse, login, logout, verify_auth}
use invoices_contracts.Accounts.Setup.{SetupRequest, SetupResponse, check_setup, setup_first_user}
use invoices_contracts.Accounts.Profile.{
  UserProfileResponse, UpdateUserRequest, UpdateAnswer, get_current_user, update_user,
}
use invoices_contracts.Contracts.Access.{Externals}
use invoices_contracts.Contracts.Access.{Visit as ContractVisit}
use invoices_contracts.Contracts.Sign.{SignInputs, sign_contract}
use invoices_contracts.Contracts.Pages.{
  Page, ContractView, ContractSigned, ContractProof, view_contract_for_signing,
  contract_signed_success, verify_contract, download_proof,
}
use invoices_contracts.Contracts.Admin.{
  list_contracts, create_contract, get_contract_admin, update_contract, delete_contract,
}
use invoices_contracts.Crud.{Faults, Table, list, create, read_one, update_one, delete_one}
use invoices_contracts.Crud.Tables.{customer_table, invoice_table}
use invoices_contracts.Invoices.{Amounts}
use invoices_contracts.Invoices.Page.{InvoiceView, PageFaults, view_invoice}

-- What the handlers call that is not of the repository, and the configuration. `parse_header` is
-- that of a header value, `format_ist` is `utc_to_ist`.
pub record Environment (D V F : Type 0) : Type 0 where
  pub services : Services
  pub config : JwtConfig
  pub externals : Externals
  pub amounts : Amounts D V F
  pub parse_header : Text → Option Text
  pub format_ist : Text → Text

-- The routes of `crud_router`. The id of a new row is the UUID that is drawn.
pub data Resource (Payload : Type 0) : Type 0 where
  get_rows : Faults → Resource Payload
  post_row : Faults → Text → Payload → Resource Payload
  get_row : Faults → Text → Resource Payload
  put_row : Faults → Text → Payload → Resource Payload
  delete_row : Faults → Text → Resource Payload

pub data Public : Type 0 where
  get_index get_login : Public
  post_login : Visit → LoginRequest → Public
  get_verify : Time → Option Text → Public
  get_check_setup : Condition → Public
  post_setup : Visit → SetupRequest → Public
  any_logout : (Call → Condition) → Option Text → Option Text → Public
  get_signing : ContractVisit → Text → Option Text → Public
  post_signing : SignInputs → Text → SignContractRequest → Public
  get_signed get_verification get_proof : ContractVisit → Text → Text → Option Text → Public

pub data Protected : Type 0 where
  get_dashboard get_profile_page : Protected
  get_invoice : PageFaults → Text → Protected
  get_profile : (Call → Condition) → Protected
  put_profile : (Call → Condition) → Text → UpdateUserRequest → Protected
  get_contracts : ContractFaults → Protected
  post_contract : ContractFaults → Text → Time → CreateContractRequest → Protected
  get_contract delete_of_contract : ContractFaults → Text → Protected
  put_contract : ContractFaults → Text → ContractPayload → Protected
  customers : Resource CustomerPayload → Protected
  invoices : Resource InvoicePayload → Protected

pub data Request : Type 0 where
  public : Public → Request
  protected : Parts → Protected → Request

-- The pages that main.rs renders.
pub data View (D : Type 0) : Type 0 where
  index_template : Text → Text → View D
  login_template edit_profile_template : View D
  dashboard_template : Text → View D
  invoice_template : InvoiceView D → View D

pub data Rows (Row : Type 0) : Type 0 where
  all_rows : List Row → Rows Row
  one_row : StatusCode → Row → Rows Row
  no_row : StatusCode → Rows Row

-- The answers: `sent_away` is the rejection of the extractor, a redirection to /login; a page has
-- the headers `set-cookie` that it adds.
pub data Reply (D : Type 0) : Type 0 where
  sent_away : Redirect → Reply D
  plain : StatusCode → Reply D
  rendered : View D → List Text → Reply D
  login_reply : Answer LoginResponse → Reply D
  verify_reply needs_setup : Bool → Reply D
  setup_reply : Answer SetupResponse → Reply D
  logout_reply : List Text → Reply D
  signing_page : Page ContractView → Reply D
  signed_page : Page ContractSigned → Reply D
  proof_page : Page ContractProof → Reply D
  signing_reply : SignContractResponse → Reply D
  profile_reply : UserProfileResponse → Reply D
  update_reply : UpdateAnswer → Reply D
  contract_reply : StatusCode → Contract → Reply D
  contracts_reply : List Contract → Reply D
  customer_rows : Rows Customer → Reply D
  invoice_rows : Rows Invoice → Reply D

-- The answer of a program, of a program on the database, and of a handler.
module _ {A R : Type 0} where
  unfoldable pub respond :
      {E : Type 0} → (E → R) → (A → R) → Program Server E A → Server → R × Server
  respond refuse answer m s =
      let (r, t) = m s in elim r [ value a ↦ (answer a, t) | stop e ↦ (refuse e, t) ]

  unfoldable pub respond_db :
      {E : Type 0} → (E → R) → (A → R) → Program Database E A → Server → R × Server
  respond_db refuse answer m s = respond refuse answer (on_db m) s

  unfoldable pub handled : (StatusCode → R) → (A → R) → Handler A → Server → R × Server
  handled refuse answer m s =
      let (r, t) = m s in elim r [ done a ↦ (answer a, t) | failed e ↦ (refuse e, t) ]

-- `crud_router`
unfoldable pub serve_resource :
    {Row Payload : Type 0} → Table Row Payload → Resource Payload → Server → Rows Row × Server
serve_resource t (get_rows f) = respond_db no_row all_rows (list t f)
serve_resource t (post_row f uuid payload) =
    respond_db no_row (λ r. one_row r.0 r.1) (create t f uuid payload)
serve_resource t (get_row f id) = respond_db no_row (one_row ok) (read_one t f id)
serve_resource t (put_row f id payload) = respond_db no_row (one_row ok) (update_one t f id payload)
serve_resource t (delete_row f id) = respond_db no_row no_row (delete_one t f id)

module _ {D V F : Type 0} (env : Environment D V F) where
  abbrev pub handler : View D
  handler = index_template (ascii "Invoices&Contracts v0.1") (ascii "Invoices&Contracts v0.1")

  abbrev pub login_view : View D
  login_view = login_template

  unfoldable pub serve_public : Public → Server → Reply D × Server
  serve_public get_index s = (rendered handler [], s)
  serve_public get_login s = (rendered login_view [], s)
  serve_public (post_login v payload) s =
      respond login_reply login_reply (login env.services env.config v payload) s
  serve_public (get_verify now cookie) s =
      (verify_reply (verify_auth env.services env.config now cookie), s)
  serve_public (get_check_setup c) s =
      respond_db plain needs_setup (check_setup env.services env.config c) s
  serve_public (post_setup v payload) s =
      respond setup_reply setup_reply (setup_first_user env.services env.config v payload) s
  serve_public (any_logout conditions jwt_cookie refresh_cookie) s =
      respond_db (λ e. logout_reply []) logout_reply
        (logout env.services env.config conditions jwt_cookie refresh_cookie) s
  serve_public (get_signing v id uuid) s =
      handled plain signing_page (view_contract_for_signing env.externals v id uuid) s
  serve_public (post_signing i id request) s =
      handled plain signing_reply (sign_contract env.externals i id request) s
  serve_public (get_signed v id code uuid) s =
      handled plain signed_page
        (contract_signed_success env.externals env.format_ist v id code uuid) s
  serve_public (get_verification v id code uuid) s =
      handled plain proof_page (verify_contract env.externals v id code uuid) s
  serve_public (get_proof v id code uuid) s =
      handled plain proof_page (download_proof env.externals v id code uuid) s

  -- `apply_refreshed_cookies(&user, template.into_response())`
  abbrev pub rendered_for : AuthUser → View D → Reply D
  rendered_for user view = rendered view (apply_refreshed_cookies env.parse_header user [])

  abbrev pub dashboard_handler : AuthUser → Reply D
  dashboard_handler user = rendered_for user (dashboard_template user.email)

  abbrev pub profile_page : AuthUser → Reply D
  profile_page user = rendered_for user edit_profile_template

  -- The protected handlers, of the user that the extractor has found.
  unfoldable pub serve_user : Protected → AuthUser → Server → Reply D × Server
  serve_user get_dashboard user s = (dashboard_handler user, s)
  serve_user get_profile_page user s = (profile_page user, s)
  serve_user (get_invoice f id) user s =
      respond_db plain (λ page. rendered_for user (invoice_template page))
        (view_invoice env.amounts f user id) s
  serve_user (get_profile conditions) user s =
      respond_db plain profile_reply (get_current_user conditions user) s
  serve_user (put_profile conditions salt payload) user s =
      respond_db update_reply update_reply (update_user env.services conditions salt user payload) s
  serve_user (get_contracts f) user s = handled plain contracts_reply (list_contracts f) s
  serve_user (post_contract f uuid now request) user s =
      handled plain (contract_reply created) (create_contract env.externals f uuid now request) s
  serve_user (get_contract f id) user s =
      handled plain (contract_reply ok) (get_contract_admin f id) s
  serve_user (put_contract f id payload) user s =
      handled plain (contract_reply ok) (update_contract f id payload) s
  serve_user (delete_of_contract f id) user s =
      let (status, t) = delete_contract env.externals f id s in (plain status, t)
  serve_user (customers r) user s =
      let (rows, t) = serve_resource customer_table r s in (customer_rows rows, t)
  serve_user (invoices r) user s =
      let (rows, t) = serve_resource invoice_table r s in (invoice_rows rows, t)

  unfoldable pub serve : Request → Server → Reply D × Server
  serve (public r) s = serve_public r s
  serve (protected parts r) s =
      let (found, t) = on_db (from_request_parts env.services env.config parts) s in
      elim found [ value user ↦ serve_user r user t | stop e ↦ (sent_away e, t) ]

  unfoldable pub serve_all : List Request → Server → Server
  unfolding serve
  serve_all [] s = s
  serve_all (r ∷ rs) s = serve_all rs (serve r s).1
