-- ===== src/Contracts/Admin.antt =====
-- src/handlers/contracts.rs: the handlers of the administrator, `create_contract`,
-- `list_contracts`, `get_contract_admin`, `update_contract` and `delete_contract`. The new UUID and
-- the clock are arguments.
use invoices_contracts.Base.{
  ℕ, ◌&&◌, false, not, List, [], ◌∷◌, ◌%◌, ◌^◌, Option, none, some, Text, text_eq, option_eq, find,
  filter, any, length, leb, ltb, if◌then◌else◌,
}
use invoices_contracts.Base.Int.{ℤ, pos, sub_ℕ}
use invoices_contracts.RateLimit.{Time}
use invoices_contracts.Models.{
  Contract, ContractPayload, CreateContractRequest, SignatureSlotDefinition,
}
use invoices_contracts.Database.{
  Database, is_contract, slot_of, signature_of, insert_contract, insert_slot, update_contract_row,
}
use invoices_contracts.Server.{
  Server, StatusCode, done, failed, Handler, Faults, or_fail, query, require, write, ◌>>=◌, ◌>>◌,
  bad_request, not_found, payload_too_large, internal_server_error, no_content, acquire,
  load_contract, insert_contract_call, insert_slot_call, update_contract_call, delete_contract_call,
}
use invoices_contracts.Contracts.Access.{Externals, pending}

abbrev pub max_title_len : ℕ
max_title_len = 500

abbrev pub max_content_len : ℕ
max_content_len = 1000000

abbrev pub max_type_len : ℕ
max_type_len = 100

abbrev pub max_id_len : ℕ
max_id_len = 200

-- `len() as i32`, which wraps.
abbrev pub as_i32 : ℕ → ℤ
as_i32 n = let low = n % 2 ^ 32 in if ltb low (2 ^ 31) then pos low else sub_ℕ low (2 ^ 32)

-- The checks of the request, in the order of the code.
unfoldable pub check_request : CreateContractRequest → Handler (Unit {0})
check_request r = do
  require payload_too_large (leb (length r.title) max_title_len)
  require payload_too_large (leb (length r.content) max_content_len)
  require bad_request (leb (length r.contract_type) max_type_len)
  require bad_request (leb (length r.customer_id) max_id_len)
  require bad_request (not (leb (length r.signature_slots) 0))

-- The loop over the slot definitions.
unfoldable pub insert_slots : Text → List SignatureSlotDefinition → Database → Database
insert_slots contract_id [] db = db
insert_slots contract_id (d ∷ ds) db = insert_slots contract_id ds (
    insert_slot
      (record {
        contract_id = contract_id;
        slot_name = d.name;
        slot_order = d.order;
        is_filled = false;
      })
      db)

-- A call that fails inside the transaction rolls all of it back.
unfoldable pub create_transaction :
    Faults → Text → ContractPayload → List SignatureSlotDefinition → Handler Contract
create_transaction faults contract_id payload slots s =
    if faults insert_contract_call
    then (failed internal_server_error, s)
    else elim (insert_contract payload s.db) [
      | none ↦ (failed internal_server_error, s)
      | some db ↦
          if faults load_contract
          then (failed internal_server_error, s)
          else elim (find (is_contract contract_id) db.contracts) [
            | none ↦ (failed internal_server_error, s)
            | some contract ↦
                if faults insert_slot_call
                then (failed internal_server_error, s)
                else (done contract, record s { db = insert_slots contract_id slots db })
          ]
    ]

module _ (ext : Externals) where
  unfoldable pub create_contract : Faults → Text → Time → CreateContractRequest → Handler Contract
  create_contract faults uuid now r = do
    check_request r
    query (faults acquire) (λ db. tt)
    create_transaction faults uuid
        (record {
          id = some uuid;
          customer_id = r.customer_id;
          contract_type = r.contract_type;
          title = r.title;
          content = r.content;
          created_at = ext.to_rfc3339 now;
          expires_at = r.expires_at;
          status = pending;
          required_signatures = as_i32 (length r.signature_slots);
          completed_signatures = pos 0;
          final_hash = none;
        })
        r.signature_slots

unfoldable pub list_contracts : Faults → Handler (List Contract)
list_contracts faults = do
  query (faults acquire) (λ db. tt)
  query (faults load_contract) (λ db. db.contracts)

unfoldable pub get_contract_admin : Faults → Text → Handler Contract
get_contract_admin faults contract_id = do
  query (faults acquire) (λ db. tt)
  found ← query (faults load_contract) (λ db. find (is_contract contract_id) db.contracts)
  or_fail not_found found

abbrev or_keep : Option Text → Option Text → Option Text
or_keep none old = old
or_keep (some new) old = some new

-- `set(&payload)`: the changeset leaves out the primary key and the fields that are `None`.
unfoldable pub apply_changes : ContractPayload → Contract → Contract
apply_changes p c = record {
  id = c.id;
  customer_id = p.customer_id;
  contract_type = p.contract_type;
  title = p.title;
  content = p.content;
  created_at = p.created_at;
  expires_at = or_keep p.expires_at c.expires_at;
  status = p.status;
  required_signatures = p.required_signatures;
  completed_signatures = p.completed_signatures;
  final_hash = or_keep p.final_hash c.final_hash;
}

unfoldable pub update_contract : Faults → Text → ContractPayload → Handler Contract
update_contract faults contract_id payload = do
  query (faults acquire) (λ db. tt)
  updated ← λ s. (done (any (is_contract contract_id) s.db.contracts), s)
  write (faults update_contract_call) (update_contract_row contract_id (apply_changes payload))
  require not_found updated
  found ← query (faults load_contract) (λ db. find (is_contract contract_id) db.contracts)
  or_fail internal_server_error found

-- The rows without a contract. With its foreign keys enforced, the slots go too, by the
-- `ON DELETE CASCADE` of their table.
unfoldable pub without_contract : Externals → Text → Database → Database
without_contract ext contract_id db = record db {
  contracts = filter (λ c. not (is_contract contract_id c)) db.contracts;
  slots = if ext.foreign_keys then filter (λ x. not (slot_of contract_id x)) db.slots else db.slots;
}

-- `delete` of a query: the number of rows is above 0 if one matched. With enforced foreign keys, a
-- contract that has a signature is not deleted, since their table has no cascade.
unfoldable pub delete_contract : Externals → Faults → Text → Server → StatusCode × Server
delete_contract ext faults contract_id s =
    if faults acquire
    then (internal_server_error, s)
    else if faults delete_contract_call
    then (internal_server_error, s)
    else if not (any (is_contract contract_id) s.db.contracts)
    then (not_found, s)
    else if ext.foreign_keys && any (signature_of contract_id) s.db.signatures
    then (internal_server_error, s)
    else (no_content, record s { db = without_contract ext contract_id s.db })
