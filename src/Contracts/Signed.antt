-- ===== src/Contracts/Signed.antt =====
-- src/handlers/contracts.rs: what a signing that is done has stored, and what it has answered.
use invoices_contracts.Base.{
  ◌≡◌, true, false, ◌||◌, [], ◌∷◌, ◌++◌, Option, some, suc, Text, ascii, ◌==◌, text_eq, option_eq,
  any, update, if◌then◌else◌,
}
use invoices_contracts.Base.Int.{pos, succ_i32, leb_ℤ, int_eq}
use invoices_contracts.Models.{
  Contract, CreateContractSignature, SignContractRequest, SignContractResponse,
}
use invoices_contracts.Database.{Database, is_contract, is_slot}
use invoices_contracts.Server.{Server}
use invoices_contracts.Contracts.Access.{Externals}
use invoices_contracts.Contracts.Sign.{SignInputs}
use invoices_contracts.Contracts.SignEffect.{Planned}

module _ (ext : Externals) where
  -- The tables after a signing, column by column, and the answer, which agrees with them.
  pub record IsSigned (i : SignInputs) (id : Text) (request : SignContractRequest)
      (before after : Database) (r : SignContractResponse) : Type 0 where
    pub contract : Contract
    pub new : CreateContractSignature
    pub hash : Option Text
    pub read : Planned ext i id request before contract new hash
    pub unused :
        any
          (λ s.
            (s.verification_code == new.verification_code) || (s.slot_id == some request.slot_id))
          before.signatures
        ≡ false
    pub stored : after ≡ record before {
      signatures =
          before.signatures
          ++ record {
            id = pos before.next_signature;
            contract_id = id;
            verification_code = r.verification_code;
            signature_hash = new.signature_hash;
            public_key = new.public_key;
            content_hash = new.content_hash;
            signed_at = ext.to_rfc3339 i.signed_at;
            signer_name = request.signer_name;
            client_ip = some (ext.ip_to_string i.visit.client_ip);
            user_agent = i.user_agent;
            slot_id = some request.slot_id;
          }
            ∷ [];
      next_signature = suc before.next_signature;
      slots = update (is_slot request.slot_id) (λ s. record s { is_filled = true }) before.slots;
      contracts =
          update
            (is_contract id)
            (λ c. record c {
              completed_signatures = r.progress.completed;
              status = if r.fully_signed then ascii "signed" else ascii "pending";
              final_hash = hash;
            })
            before.contracts;
    }
    pub success : r.success ≡ true
    pub signed_at : r.signed_at ≡ ext.to_rfc3339 i.signed_at
    pub code : r.verification_code ≡ new.verification_code
    pub completed : r.progress.completed ≡ succ_i32 contract.completed_signatures
    pub required : r.progress.required ≡ contract.required_signatures
    pub fully_signed :
        r.fully_signed ≡ leb_ℤ contract.required_signatures (succ_i32 contract.completed_signatures)
