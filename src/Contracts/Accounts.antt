-- ===== src/Contracts/Accounts.antt =====
-- src/handlers/contracts.rs: the handlers write neither users nor tokens, and the pages nothing.
use invoices_contracts.Base.{
  ◌≡◌, refl, ◌++◌, List, [], ◌∷◌, Option, none, some, arith, Text, any, Bool,
}
use invoices_contracts.Base.Int.{ℤ}
use invoices_contracts.RateLimit.{Time}
use invoices_contracts.Models.{
  Contract, ContractPayload, CreateContractSignature, CreateContractRequest, SignContractRequest,
  SignatureSlotDefinition,
}
use invoices_contracts.Database.{
  Database, is_contract, insert_signature, fill_slot, update_contract_row, insert_contract,
  insert_slot, contract_row,
}
use invoices_contracts.Server.{Server, Faults, Handler, done, write}
use invoices_contracts.Server.Keeps.{KeepsDb, KeepsDb-query, keeps_rules}
use invoices_contracts.Server.Holds.{Holds, Holds-KeepsDb, Holds-write, Holds-bind}
use invoices_contracts.Contracts.Access.{Externals, Visit}
use invoices_contracts.Contracts.Sign.{SignInputs, insert_new, commit, sign_contract}
use invoices_contracts.Contracts.Pages.{
  load_slots_of, load_signatures_of, view_contract_for_signing, contract_signed_success,
  verify_contract, download_proof,
}
use invoices_contracts.Contracts.Admin.{
  insert_slots, create_transaction, create_contract, list_contracts, get_contract_admin,
  update_contract, delete_contract, without_contract,
}
use invoices_contracts.Contracts.SignKeeps.{authorize-KeepsDb, prepare-KeepsDb}
use invoices_contracts.Contracts.Create.{check_request-KeepsDb}

module _ (ext : Externals) where
  load_slots_of-KeepsDb : (faults : Faults) (id : Text) → KeepsDb (load_slots_of ext faults id)
  unfolding load_slots_of
  load_slots_of-KeepsDb faults id = KeepsDb-query _ _

  load_signatures_of-KeepsDb :
      (faults : Faults) (id : Text) → KeepsDb (load_signatures_of ext faults id)
  unfolding load_signatures_of
  load_signatures_of-KeepsDb faults id = KeepsDb-query _ _

  ruleset page_rules =
      (keeps_rules, authorize-KeepsDb, load_slots_of-KeepsDb, load_signatures_of-KeepsDb)

  pub view_contract_for_signing-KeepsDb :
      (v : Visit) (id : Text) (uuid : Option Text)
      → KeepsDb (view_contract_for_signing ext v id uuid)
  unfolding view_contract_for_signing
  view_contract_for_signing-KeepsDb v id none = search page_rules
  view_contract_for_signing-KeepsDb v id (some uuid) = search page_rules depth 12

  pub contract_signed_success-KeepsDb :
      (format : Text → Text) (v : Visit) (id code : Text) (uuid : Option Text)
      → KeepsDb (contract_signed_success ext format v id code uuid)
  unfolding contract_signed_success
  contract_signed_success-KeepsDb format v id code none = search page_rules
  contract_signed_success-KeepsDb format v id code (some uuid) = search page_rules depth 16

  pub verify_contract-KeepsDb :
      (v : Visit) (id code : Text) (uuid : Option Text)
      → KeepsDb (verify_contract ext v id code uuid)
  unfolding verify_contract
  verify_contract-KeepsDb v id code none = search page_rules
  verify_contract-KeepsDb v id code (some uuid) = search page_rules depth 20

  pub download_proof-KeepsDb :
      (v : Visit) (id code : Text) (uuid : Option Text)
      → KeepsDb (download_proof ext v id code uuid)
  unfolding download_proof
  download_proof-KeepsDb = verify_contract-KeepsDb

pub list_contracts-KeepsDb : (faults : Faults) → KeepsDb (list_contracts faults)
unfolding list_contracts
list_contracts-KeepsDb faults = search keeps_rules depth 6

pub get_contract_admin-KeepsDb :
    (faults : Faults) (id : Text) → KeepsDb (get_contract_admin faults id)
unfolding get_contract_admin
get_contract_admin-KeepsDb faults id = search keeps_rules depth 8

-- The tables of the accounts are the same.
pub record SameAccounts (before after : Database) : Type 0 where
  pub users : after.users ≡ before.users
  pub jwt_tokens : after.jwt_tokens ≡ before.jwt_tokens
  pub refresh_tokens : after.refresh_tokens ≡ before.refresh_tokens

insert_slots-SameAccounts :
    (id : Text) (ds : List SignatureSlotDefinition) (db : Database)
    → SameAccounts db (insert_slots id ds db)
unfolding insert_slots insert_slot
insert_slots-SameAccounts id [] db = ground arith
insert_slots-SameAccounts id (d ∷ ds) db =
    let rest = insert_slots-SameAccounts id ds _ in
    record {
      users = rest.users;
      jwt_tokens = rest.jwt_tokens;
      refresh_tokens = rest.refresh_tokens;
    }

-- A property of the accounts, kept by every handler of contracts.
module _ (P : Database → Type 0)
    (aside : (before after : Database) → SameAccounts before after → P before → P after) where
  insert_new-Holds :
      (ext : Externals) (faults : Faults) (new : CreateContractSignature)
      → Holds P (insert_new ext faults new)
  unfolding insert_new insert_signature
  insert_new-Holds ext faults new = record { held = λ s. aside s.db _ (ground arith) }

  write_aside :
      (fault : Bool) (f : Database → Database)
      → ((db : Database) → SameAccounts db (f db))
      → Holds P (write fault f)
  write_aside fault f same = Holds-write P fault f (λ db. aside db (f db) (same db))

  fill_slot-Holds : (fault : Bool) (slot : ℤ) → Holds P (write fault (fill_slot slot))
  unfolding fill_slot
  fill_slot-Holds fault slot = write_aside fault _ (λ db. ground arith)

  update_row-Holds :
      (fault : Bool) (id : Text) (f : Contract → Contract)
      → Holds P (write fault (update_contract_row id f))
  unfolding update_contract_row
  update_row-Holds fault id f = write_aside fault _ (λ db. ground arith)

  reads_hold : {A : Type 0} (m : Handler A) → KeepsDb m → Holds P m
  reads_hold m k = Holds-KeepsDb P m k

  ruleset aside_rules =
      (Holds-bind, reads_hold, insert_new-Holds, fill_slot-Holds, update_row-Holds, keeps_rules)

  pub sign_contract-Holds :
      (ext : Externals) (i : SignInputs) (id : Text) (request : SignContractRequest)
      → Holds P (sign_contract ext i id request)
  unfolding sign_contract commit
  sign_contract-Holds ext i id request = search (aside_rules, prepare-KeepsDb) depth 16

  create_transaction-Holds :
      (faults : Faults) (id : Text) (p : ContractPayload) (ds : List SignatureSlotDefinition)
      → Holds P (create_transaction faults id p ds)
  unfolding create_transaction insert_contract
  create_transaction-Holds faults id p ds = record {
    held = λ s. aside s.db _ (
        ground (
          arith,
          insert_slots-SameAccounts id ds
              (record s.db { contracts = s.db.contracts ++ contract_row p ∷ [] }),
        ));
  }

  pub create_contract-Holds :
      (ext : Externals) (faults : Faults) (uuid : Text) (now : Time) (r : CreateContractRequest)
      → Holds P (create_contract ext faults uuid now r)
  unfolding create_contract
  create_contract-Holds ext faults uuid now r =
      search (aside_rules, check_request-KeepsDb, create_transaction-Holds) depth 10

  answer_updated-KeepsDb :
      (id : Text) → KeepsDb (λ (s : Server). (done (any (is_contract id) s.db.contracts), s))
  answer_updated-KeepsDb id = record { same = λ s. refl }

  pub update_contract-Holds :
      (faults : Faults) (id : Text) (p : ContractPayload) → Holds P (update_contract faults id p)
  unfolding update_contract
  update_contract-Holds faults id p = search (aside_rules, answer_updated-KeepsDb) depth 16

  pub delete_contract-Holds :
      (ext : Externals) (faults : Faults) (id : Text) (s : Server)
      → P s.db
      → P (delete_contract ext faults id s).1.db
  unfolding delete_contract without_contract
  delete_contract-Holds ext faults id s = aside s.db _ (ground arith)
