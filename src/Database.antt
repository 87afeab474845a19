-- ===== src/Database.antt =====
-- The tables of src/schema.rs with the constraints of migrations/, and the queries that the
-- handlers build. A table is the list of its rows in the order of insertion; `filter`, `first` and
-- `load` of a query are `filter`, `find` and the list itself. Whether
-- foreign keys are enforced is a parameter of the deletion of contracts; elsewhere, a query that
-- one refuses counts as one that fails.
pub mod Accounts
pub mod Billing
use invoices_contracts.Base.{
  ℕ, suc, Bool, true, false, ◌||◌, List, [], ◌∷◌, ◌++◌, Option, none, some, Text, ◌==◌, text_eq,
  option_eq, any, update, if◌then◌else◌,
}
use invoices_contracts.Base.Int.{ℤ, pos, int_eq}
use invoices_contracts.Models.{
  Customer, Contract, ContractPayload, ContractSignature, CreateContractSignature,
  ContractSignatureSlot, CreateContractSignatureSlot, Invoice, User, JwtToken, RefreshToken,
}

-- The fields that begin with `next` are the counters of `AUTOINCREMENT`.
pub record Database : Type 0 where
  pub customers : List Customer
  pub contracts : List Contract
  pub slots : List ContractSignatureSlot
  pub signatures : List ContractSignature
  pub next_slot : ℕ
  pub next_signature : ℕ
  pub invoices : List Invoice
  pub users : List User
  pub jwt_tokens : List JwtToken
  pub refresh_tokens : List RefreshToken
  pub next_user : ℕ
  pub next_jwt : ℕ
  pub next_refresh : ℕ

-- `customer::id.eq(id)`; a missing id equals nothing.
abbrev pub is_customer : Text → Customer → Bool
is_customer id c = c.id == some id

abbrev pub is_contract : Text → Contract → Bool
is_contract id c = c.id == some id

abbrev pub is_slot : ℤ → ContractSignatureSlot → Bool
is_slot id s = s.id == some id

abbrev pub slot_of : Text → ContractSignatureSlot → Bool
slot_of contract_id s = s.contract_id == contract_id

abbrev pub signature_of : Text → ContractSignature → Bool
signature_of contract_id s = s.contract_id == contract_id

-- The unique columns of contract_signatures: `verification_code` and `slot_id`, of which missing
-- values do not clash.
abbrev pub same_slot : Option ℤ → ContractSignature → Bool
same_slot none s = false
same_slot (some k) s = s.slot_id == some k

abbrev pub clashes : CreateContractSignature → ContractSignature → Bool
clashes new s = (s.verification_code == new.verification_code) || same_slot new.slot_id s

-- The row of an insertion.
abbrev pub signature_row : ℕ → CreateContractSignature → ContractSignature
signature_row id new = record {
  id = pos id;
  contract_id = new.contract_id;
  verification_code = new.verification_code;
  signature_hash = new.signature_hash;
  public_key = new.public_key;
  content_hash = new.content_hash;
  signed_at = new.signed_at;
  signer_name = new.signer_name;
  client_ip = new.client_ip;
  user_agent = new.user_agent;
  slot_id = new.slot_id;
}

-- `insert_into(contract_signatures)`
unfoldable pub insert_signature : CreateContractSignature → Database → Option Database
insert_signature new db =
    if any (clashes new) db.signatures
    then none
    else some (record db {
      signatures = db.signatures ++ signature_row db.next_signature new ∷ [];
      next_signature = suc db.next_signature;
    })

abbrev pub fill : ContractSignatureSlot → ContractSignatureSlot
fill s = record s { is_filled = true }

-- `update(contract_signature_slots.filter(id.eq(id))).set(is_filled.eq(true))`
unfoldable pub fill_slot : ℤ → Database → Database
fill_slot id db = record db { slots = update (is_slot id) fill db.slots }

abbrev pub slot_row : ℕ → CreateContractSignatureSlot → ContractSignatureSlot
slot_row id new = record {
  id = some (pos id);
  contract_id = new.contract_id;
  slot_name = new.slot_name;
  slot_order = new.slot_order;
  is_filled = new.is_filled;
}

-- `insert_into(contract_signature_slots)`
unfoldable pub insert_slot : CreateContractSignatureSlot → Database → Database
insert_slot new db = record db {
  slots = db.slots ++ slot_row db.next_slot new ∷ [];
  next_slot = suc db.next_slot;
}

abbrev pub contract_row : ContractPayload → Contract
contract_row p = record {
  id = p.id;
  customer_id = p.customer_id;
  contract_type = p.contract_type;
  title = p.title;
  content = p.content;
  created_at = p.created_at;
  expires_at = p.expires_at;
  status = p.status;
  required_signatures = p.required_signatures;
  completed_signatures = p.completed_signatures;
  final_hash = p.final_hash;
}

-- Whether the primary key is taken.
abbrev pub same_id : Option Text → Contract → Bool
same_id none c = false
same_id (some id) c = is_contract id c

-- `insert_into(contracts)`
unfoldable pub insert_contract : ContractPayload → Database → Option Database
insert_contract p db =
    if any (same_id p.id) db.contracts
    then none
    else some (record db { contracts = db.contracts ++ contract_row p ∷ [] })

-- The `set((completed_signatures, status, final_hash))` of a signing; an update to `None` writes
-- NULL here, since the columns are named.
abbrev pub count_signature : ℤ → Text → Option Text → Contract → Contract
count_signature completed status hash c = record c {
  completed_signatures = completed;
  status = status;
  final_hash = hash;
}

unfoldable pub update_contract_row : Text → (Contract → Contract) → Database → Database
update_contract_row id f db = record db { contracts = update (is_contract id) f db.contracts }
