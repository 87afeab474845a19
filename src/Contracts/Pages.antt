-- ===== src/Contracts/Pages.antt =====
-- src/handlers/contracts.rs: the public pages, `view_contract_for_signing`,
-- `contract_signed_success`, `verify_contract` and `download_proof`, with the values that they hand
-- to their templates.
use invoices_contracts.Base.{
  Bool, false, not, List, [], ◌∷◌, map, Option, none, some, Text, ◌==◌, text_eq, find, filter, ◌&&◌,
  if◌then◌else◌,
}
use invoices_contracts.Base.Int.{ℤ, leb_ℤ}
use invoices_contracts.Crypto.{verify_signature, hash_content, generate_final_hash}
use invoices_contracts.Models.{Contract, ContractSignature, ContractSignatureSlot}
use invoices_contracts.Database.{slot_of, signature_of}
use invoices_contracts.Server.{
  Handler, Faults, pure, or_fail, query, ◌>>=◌, not_found, internal_server_error, load_slot,
  load_slots, load_signatures,
}
use invoices_contracts.Contracts.Access.{Externals, Visit, signed, mask_id, authorize}

-- `.order(slot_order.asc())`
insert_by_order : ContractSignatureSlot → List ContractSignatureSlot → List ContractSignatureSlot
insert_by_order s [] = s ∷ []
insert_by_order s (t ∷ ts) =
    if leb_ℤ s.slot_order t.slot_order then s ∷ (t ∷ ts) else t ∷ insert_by_order s ts

unfoldable pub by_order : List ContractSignatureSlot → List ContractSignatureSlot
unfolding insert_by_order
by_order [] = []
by_order (s ∷ ss) = insert_by_order s (by_order ss)

abbrev pub get_or : Text → Option Text → Text
get_or d none = d
get_or d (some t) = t

-- A page, or the form that asks for the customer's UUID.
pub data Page (A : Type 0) : Type 0 where
  gate : List Text → Page A
  shown : A → Page A

pub record ContractView : Type 0 where
  pub contract_id : Text
  pub contract_title : Text
  pub contract_type : Text
  pub contract_created_at : Text
  pub contract_expires_at : Text
  pub contract_content : Text
  pub customer_name : Text
  pub customer_uuid : Text
  pub fully_signed : Bool
  pub progress_completed : ℤ
  pub progress_required : ℤ
  pub slots : List ContractSignatureSlot
  pub signatures : List ContractSignature

pub record ContractSigned : Type 0 where
  pub contract_id : Text
  pub contract_title : Text
  pub contract_type : Text
  pub verification_code : Text
  pub signed_at : Text
  pub progress_completed : ℤ
  pub progress_required : ℤ
  pub fully_signed : Bool
  pub slots : List ContractSignatureSlot
  pub signatures : List ContractSignature

pub record VerifiedSignature : Type 0 where
  pub signature : ContractSignature
  pub valid : Bool
  pub tampered : Bool

pub record ContractProof : Type 0 where
  pub contract_id : Text
  pub contract_title : Text
  pub contract_type : Text
  pub contract_customer_id : Text
  pub contract_status : Text
  pub contract_created_at : Text
  pub contract_content : Text
  pub verification_code : Text
  pub progress_completed : ℤ
  pub progress_required : ℤ
  pub fully_signed : Bool
  pub final_hash : Option Text
  pub final_hash_valid : Bool
  pub slots : List ContractSignatureSlot
  pub verified_signatures : List VerifiedSignature

module _ (ext : Externals) where
  unfoldable pub load_slots_of : Faults → Text → Handler (List ContractSignatureSlot)
  load_slots_of faults contract_id =
      query (faults load_slots) (λ db. by_order (filter (slot_of contract_id) db.slots))

  unfoldable pub load_signatures_of : Faults → Text → Handler (List ContractSignature)
  load_signatures_of faults contract_id =
      query (faults load_signatures)
        (λ db. ext.arrange (filter (signature_of contract_id) db.signatures))

  unfoldable pub view_contract_for_signing :
      Visit → Text → Option Text → Handler (Page ContractView)
  view_contract_for_signing v contract_id none = pure (gate (mask_id contract_id ∷ []))
  view_contract_for_signing v contract_id (some customer_uuid) = do
    found ← authorize ext v contract_id customer_uuid
    slots ← load_slots_of v.faults contract_id
    signatures ← load_signatures_of v.faults contract_id
    pure (
        shown (record {
          contract_id = get_or [] found.0.id;
          contract_title = found.0.title;
          contract_type = found.0.contract_type;
          contract_created_at = found.0.created_at;
          contract_expires_at = get_or [] found.0.expires_at;
          contract_content = found.0.content;
          customer_name = found.1.name;
          customer_uuid = customer_uuid;
          fully_signed = found.0.status == signed;
          progress_completed = found.0.completed_signatures;
          progress_required = found.0.required_signatures;
          slots = slots;
          signatures = signatures;
        }))

  -- `format_ist` is `utc_to_ist`, which formats a time with chrono or gives its text back.
  unfoldable pub contract_signed_success :
      (Text → Text) → Visit → Text → Text → Option Text → Handler (Page ContractSigned)
  contract_signed_success format_ist v contract_id code none =
      pure (gate (mask_id contract_id ∷ (mask_id code ∷ [])))
  contract_signed_success format_ist v contract_id code (some customer_uuid) = do
    found ← authorize ext v contract_id customer_uuid
    stored ←
        query (v.faults load_slot) (λ db.
          find (λ s. signature_of contract_id s && s.verification_code == code) db.signatures)
    signature ← or_fail not_found stored
    slots ← load_slots_of v.faults contract_id
    signatures ← load_signatures_of v.faults contract_id
    pure (
        shown (record {
          contract_id = get_or [] found.0.id;
          contract_title = found.0.title;
          contract_type = found.0.contract_type;
          verification_code = signature.verification_code;
          signed_at = format_ist signature.signed_at;
          progress_completed = found.0.completed_signatures;
          progress_required = found.0.required_signatures;
          fully_signed = found.0.status == signed;
          slots = slots;
          signatures = signatures;
        }))

  -- The closure that verifies one signature.
  unfoldable pub verified : Text → Contract → ContractSignature → VerifiedSignature
  verified contract_id contract s = record {
    signature = s;
    valid =
        verify_signature ext.crypto s.public_key s.signature_hash contract_id s.content_hash
          s.signed_at;
    tampered = not (hash_content ext.crypto contract.content == s.content_hash);
  }

  -- Whether the stored final hash is the one of the stored signatures; `none` is a panic of
  -- `generate_final_hash`.
  unfoldable pub final_hash_valid : Contract → List ContractSignature → Option Bool
  final_hash_valid contract signatures = elim (contract.final_hash) [
    | none ↦ some false
    | some stored ↦
        if contract.status == signed
        then (elim (generate_final_hash ext.crypto contract.content
            (map (λ s. s.signature_hash) signatures) (map (λ s. s.signed_at) signatures)
            (map (λ s. s.content_hash) signatures)) [
              | none ↦ none
              | some recalculated ↦ some (recalculated == stored)
            ])
        else some false
  ]

  unfoldable pub verify_contract : Visit → Text → Text → Option Text → Handler (Page ContractProof)
  verify_contract v contract_id code none = pure (gate (mask_id contract_id ∷ (mask_id code ∷ [])))
  verify_contract v contract_id code (some customer_uuid) = do
    found ← authorize ext v contract_id customer_uuid
    slots ← load_slots_of v.faults contract_id
    signatures ← load_signatures_of v.faults contract_id
    target ← or_fail not_found (find (λ s. s.verification_code == code) signatures)
    valid ← or_fail internal_server_error (final_hash_valid found.0 signatures)
    pure (
        shown (record {
          contract_id = get_or [] found.0.id;
          contract_title = found.0.title;
          contract_type = found.0.contract_type;
          contract_customer_id = found.0.customer_id;
          contract_status = found.0.status;
          contract_created_at = found.0.created_at;
          contract_content = found.0.content;
          verification_code = target.verification_code;
          progress_completed = found.0.completed_signatures;
          progress_required = found.0.required_signatures;
          fully_signed = found.0.status == signed;
          final_hash = found.0.final_hash;
          final_hash_valid = valid;
          slots = slots;
          verified_signatures = map (verified contract_id found.0) signatures;
        }))

  unfoldable pub download_proof : Visit → Text → Text → Option Text → Handler (Page ContractProof)
  download_proof v contract_id code uuid = verify_contract v contract_id code uuid
