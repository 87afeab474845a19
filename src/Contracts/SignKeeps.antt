-- ===== src/Contracts/SignKeeps.antt =====
-- src/handlers/contracts.rs: the steps of `sign_contract` before its writes.
use invoices_contracts.Base.{◌≡◌, refl, ◌∙◌, arith, Text, text_eq, option_eq}
use invoices_contracts.Base.Int.{ℤ}
use invoices_contracts.Models.{Contract, Customer, CreateContractSignature, SignContractRequest}
use invoices_contracts.Crypto.{SignResult, ok, err}
use invoices_contracts.Server.{internal_server_error, Server, Outcome, done, failed, Faults}
use invoices_contracts.Server.Keeps.{KeepsDb, KeepsDb-pure, KeepsDb-fail, keeps_rules}
use invoices_contracts.Contracts.Access.{
  Externals, Visit, verify_customer_uuid, check_limit, settle, settled, authorize,
}
use invoices_contracts.Contracts.Sign.{
  SignInputs, or_internal, open_slot, new_signature, final_hash, prepare,
}

or_internal-KeepsDb : (r : SignResult) → KeepsDb (or_internal r)
unfolding or_internal
or_internal-KeepsDb (ok t) = KeepsDb-pure t
or_internal-KeepsDb (err e) = KeepsDb-fail internal_server_error

module _ (ext : Externals) where
  verify_customer_uuid-KeepsDb :
      (faults : Faults) (contract_id uuid : Text)
      → KeepsDb (verify_customer_uuid ext faults contract_id uuid)
  unfolding verify_customer_uuid
  verify_customer_uuid-KeepsDb faults contract_id uuid = search keeps_rules depth 12

  pub check_limit-KeepsDb : (v : Visit) → KeepsDb (check_limit ext v)
  unfolding check_limit
  check_limit-KeepsDb v = record { same = λ s. ground arith }

  settle-same :
      (v : Visit) (o : Outcome (Contract × Customer)) (s : Server) → (settle ext v o s).1.db ≡ s.db
  unfolding settle
  settle-same v (done found) s = refl
  settle-same v (failed e) s = refl

  settled-KeepsDb : (v : Visit) (contract_id uuid : Text) → KeepsDb (settled ext v contract_id uuid)
  unfolding settled
  settled-KeepsDb v contract_id uuid = record {
    same = λ s. settle-same v _ _ ∙ (verify_customer_uuid-KeepsDb v.faults contract_id uuid).same s;
  }

  pub authorize-KeepsDb :
      (v : Visit) (contract_id uuid : Text) → KeepsDb (authorize ext v contract_id uuid)
  unfolding authorize
  authorize-KeepsDb v contract_id uuid =
      search (keeps_rules, check_limit-KeepsDb, settled-KeepsDb) depth 8

  pub open_slot-KeepsDb :
      (faults : Faults) (contract_id : Text) (slot_id : ℤ)
      → KeepsDb (open_slot ext faults contract_id slot_id)
  unfolding open_slot
  open_slot-KeepsDb faults contract_id slot_id = search keeps_rules depth 8

  pub new_signature-KeepsDb :
      (i : SignInputs) (contract_id : Text) (request : SignContractRequest) (c : Contract)
      → KeepsDb (new_signature ext i contract_id request c)
  unfolding new_signature
  new_signature-KeepsDb i contract_id request c = search (keeps_rules, or_internal-KeepsDb) depth 8

  pub final_hash-KeepsDb :
      (faults : Faults) (contract_id : Text) (c : Contract) (new : CreateContractSignature)
      → KeepsDb (final_hash ext faults contract_id c new)
  unfolding final_hash
  final_hash-KeepsDb faults contract_id c new = search keeps_rules depth 8

  -- Nothing is written to the database before the three writes.
  pub prepare-KeepsDb :
      (i : SignInputs) (contract_id : Text) (request : SignContractRequest)
      → KeepsDb (prepare ext i contract_id request)
  unfolding prepare
  prepare-KeepsDb i contract_id request =
      search
        (
          keeps_rules, authorize-KeepsDb, open_slot-KeepsDb, new_signature-KeepsDb,
          final_hash-KeepsDb,
        )
        depth 20
