-- ===== src/Contracts/Access.antt =====
-- src/handlers/contracts.rs: who may see or sign a contract. The crates uuid and chrono, and the
-- order in which the database returns rows where a query gives none, are parameters.
use invoices_contracts.Base.{
  Bool, List, Option, some, Text, ascii, ◌==◌, text_eq, option_eq, find, length, drop, ◌++◌, ◌-◌,
  leb, if◌then◌else◌,
}
use invoices_contracts.RateLimit.{
  Time, IpAddr, allowed, limited, check_rate_limit, record_failed_attempt, reset_attempts,
}
use invoices_contracts.Crypto.{Primitives}
use invoices_contracts.Models.{Contract, Customer, ContractSignature}
use invoices_contracts.Database.{is_contract, is_customer}
use invoices_contracts.Server.{
  Outcome, done, failed, Handler, Faults, pure, or_fail, query, require, ◌>>=◌, ◌>>◌, unauthorized,
  not_found, too_many_requests, acquire, load_contract, load_customer,
}

-- `is_valid_uuid` is whether `Uuid::parse_str` returns `Ok`.
pub record Externals : Type 0 where
  pub crypto : Primitives
  pub is_valid_uuid : Text → Bool
  pub parse_rfc3339 : Text → Option Time
  pub to_rfc3339 : Time → Text
  pub ip_to_string : IpAddr → Text
  pub arrange : List ContractSignature → List ContractSignature
  -- Whether SQLite enforces foreign keys, which its build and each connection choose.
  pub foreign_keys : Bool

abbrev pub pending : Text
pending = ascii "pending"

abbrev pub signed : Text
signed = ascii "signed"

-- The last four bytes of an id. `&id[len - 4..]` panics inside a character of several bytes.
unfoldable pub mask_id : Text → Text
mask_id id = let len = length id in if leb len 4 then id else ascii "****-" ++ drop (len - 4) id

-- A request as the access checks see it: the client, the times of the two readings of the clock,
-- and the calls of the database that fail.
pub record Visit : Type 0 where
  pub client_ip : IpAddr
  pub check_at : Time
  pub failed_at : Time
  pub faults : Faults

module _ (ext : Externals) where
  unfoldable pub verify_customer_uuid : Faults → Text → Text → Handler (Contract × Customer)
  verify_customer_uuid faults contract_id customer_uuid = do
    require unauthorized (ext.is_valid_uuid customer_uuid)
    found ← query (faults load_contract) (λ db. find (is_contract contract_id) db.contracts)
    contract ← or_fail not_found found
    holder ← query (faults load_customer) (λ db. find (is_customer customer_uuid) db.customers)
    customer ← or_fail unauthorized holder
    require unauthorized (customer.id == some contract.customer_id)
    pure (contract, customer)

  -- `check_rate_limit(client_ip).await.is_err()`
  unfoldable pub check_limit : Visit → Handler (Unit {0})
  check_limit v s =
      let (verdict, limiter) = check_rate_limit s.limiter v.client_ip v.check_at in
      elim verdict [
        | allowed ↦ (done tt, record s { limiter = limiter })
        | limited minutes ↦ (failed too_many_requests, record s { limiter = limiter })
      ]

  -- The `match` on `verify_customer_uuid`, which resets the client or records its failure.
  unfoldable pub settle : Visit → Outcome (Contract × Customer) → Handler (Contract × Customer)
  settle v (done found) s =
      (done found, record s { limiter = reset_attempts s.limiter v.client_ip })
  settle v (failed e) s =
      (failed e, record s { limiter = record_failed_attempt s.limiter v.client_ip v.failed_at })

  unfoldable pub settled : Visit → Text → Text → Handler (Contract × Customer)
  settled v contract_id customer_uuid s =
      let (outcome, t) = verify_customer_uuid v.faults contract_id customer_uuid s in
      settle v outcome t

  -- The access check that the four public handlers begin with.
  unfoldable pub authorize : Visit → Text → Text → Handler (Contract × Customer)
  authorize v contract_id customer_uuid = do
    check_limit v
    query (v.faults acquire) (λ db. tt)
    settled v contract_id customer_uuid
