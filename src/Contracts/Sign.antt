-- ===== src/Contracts/Sign.antt =====
-- src/handlers/contracts.rs: `sign_contract`, statement by statement.
use invoices_contracts.Base.{
  ℕ, Bool, true, false, not, List, [], ◌∷◌, ◌++◌, map, Option, none, some, Text, ◌==◌, text_eq,
  option_eq, find, filter, ltb, ◌&&◌, if◌then◌else◌,
}
use invoices_contracts.Base.Int.{ℤ, int_eq, succ_i32, leb_ℤ}
use invoices_contracts.RateLimit.{Time}
use invoices_contracts.Crypto.{
  SignResult, ok, err, generate_keypair, generate_verification_code, hash_content,
  generate_final_hash,
}
use invoices_contracts.Crypto
use invoices_contracts.Models.{
  Contract, ContractSignature, CreateContractSignature, ContractSignatureSlot, SignContractRequest,
  SignContractResponse,
}
use invoices_contracts.Database.{
  is_slot, slot_of, signature_of, insert_signature, fill_slot, count_signature, update_contract_row,
}
use invoices_contracts.Server.{
  done, failed, Handler, Faults, pure, fail, or_fail, query, require, write, ◌>>=◌, ◌>>◌,
  bad_request, conflict, gone, internal_server_error, load_slot, load_signatures,
  insert_signature_call, update_slot_call, update_contract_call,
}
use invoices_contracts.Contracts.Access.{Externals, Visit, pending, signed, authorize}

-- What a signing takes from outside: the later readings of the clock, the random bytes of the key,
-- the draws of the code, and the header `user-agent`, if it is there as text.
pub record SignInputs : Type 0 where
  pub visit : Visit
  pub expiry_at : Time
  pub signed_at : Time
  pub seed : Text
  pub draw : ℕ → ℕ
  pub user_agent : Option Text

-- `.map_err(|_| INTERNAL_SERVER_ERROR)?`
unfoldable pub or_internal : SignResult → Handler Text
or_internal (ok t) = pure t
or_internal (err e) = fail internal_server_error

module _ (ext : Externals) where
  unfoldable pub open_slot : Faults → Text → ℤ → Handler ContractSignatureSlot
  open_slot faults contract_id slot_id = do
    found ←
        query (faults load_slot)
          (λ db. find (λ s. is_slot slot_id s && slot_of contract_id s) db.slots)
    slot ← or_fail bad_request found
    require conflict (not slot.is_filled)
    pure slot

  -- An expiry date that cannot be read never passes.
  unfoldable pub has_expired : Option Text → Time → Bool
  has_expired none now = false
  has_expired (some expires_at) now = elim (ext.parse_rfc3339 expires_at) [
    | none ↦ false
    | some expiry_time ↦ ltb expiry_time now
  ]

  -- The key, the signature and the code of a new signature. A panic of the code, which draws below
  -- 32 rule out, ends the request as an error does.
  unfoldable pub new_signature :
      SignInputs → Text → SignContractRequest → Contract → Handler CreateContractSignature
  new_signature i contract_id request contract =
      let timestamp = ext.to_rfc3339 i.signed_at in
      let content_hash = hash_content ext.crypto contract.content in
      let (public_key, private_key) = generate_keypair ext.crypto i.seed in
      do
        signature_hash ←
            or_internal
              (Crypto.sign_contract ext.crypto private_key contract_id content_hash timestamp)
        code ← or_fail internal_server_error (generate_verification_code i.draw)
        pure (record {
          contract_id = contract_id;
          verification_code = code;
          signature_hash = signature_hash;
          public_key = public_key;
          content_hash = content_hash;
          signed_at = timestamp;
          signer_name = request.signer_name;
          client_ip = some (ext.ip_to_string i.visit.client_ip);
          user_agent = i.user_agent;
          slot_id = some request.slot_id;
        })

  -- The hash over all signatures of the contract and the new one.
  unfoldable pub hash_all : Text → List ContractSignature → CreateContractSignature → Option Text
  hash_all content existing new =
      generate_final_hash ext.crypto content
        (map (λ s. s.signature_hash) existing ++ new.signature_hash ∷ [])
        (map (λ s. s.signed_at) existing ++ new.signed_at ∷ [])
        (map (λ s. s.content_hash) existing ++ new.content_hash ∷ [])

  abbrev pub is_last : Contract → Bool
  is_last contract = leb_ℤ contract.required_signatures (succ_i32 contract.completed_signatures)

  -- `final_hash_opt`
  unfoldable pub final_hash :
      Faults → Text → Contract → CreateContractSignature → Handler (Option Text)
  final_hash faults contract_id contract new =
      if is_last contract
      then (do
        existing ←
            query (faults load_signatures)
              (λ db. ext.arrange (filter (signature_of contract_id) db.signatures))
        hash ← or_fail internal_server_error (hash_all contract.content existing new)
        pure (some hash))
      else pure none

  unfoldable pub insert_new : Faults → CreateContractSignature → Handler (Unit {0})
  insert_new faults new s =
      if faults insert_signature_call
      then (failed internal_server_error, s)
      else elim (insert_signature new s.db) [
        | none ↦ (failed conflict, s)
        | some db ↦ (done tt, record s { db = db })
      ]

  -- The three writes, which no transaction joins.
  unfoldable pub commit :
      Faults → Text → ℤ → Contract → CreateContractSignature → Option Text → Handler (Unit {0})
  commit faults contract_id slot_id contract new hash = do
    insert_new faults new
    write (faults update_slot_call) (fill_slot slot_id)
    write (faults update_contract_call) (
        update_contract_row contract_id (
          count_signature (succ_i32 contract.completed_signatures)
            (if is_last contract then signed else pending) hash))

  -- The reads of a signing: the contract as it was read, the new signature and the final hash.
  unfoldable pub prepare :
      SignInputs
      → Text
      → SignContractRequest
      → Handler (Contract × CreateContractSignature × Option Text)
  prepare i contract_id request = do
    require bad_request request.accepted
    found ← authorize ext i.visit contract_id request.customer_uuid
    slot ← open_slot i.visit.faults contract_id request.slot_id
    require conflict (found.0.status == pending)
    require gone (not (has_expired found.0.expires_at i.expiry_at))
    new ← new_signature i contract_id request found.0
    hash ← final_hash i.visit.faults contract_id found.0 new
    pure (found.0, new, hash)

  abbrev pub response : Contract → CreateContractSignature → SignContractResponse
  response contract new = record {
    success = true;
    verification_code = new.verification_code;
    signed_at = new.signed_at;
    progress = record {
      completed = succ_i32 contract.completed_signatures;
      required = contract.required_signatures;
    };
    fully_signed = is_last contract;
  }

  unfoldable pub sign_contract :
      SignInputs → Text → SignContractRequest → Handler SignContractResponse
  sign_contract i contract_id request = do
    plan ← prepare i contract_id request
    commit i.visit.faults contract_id request.slot_id plan.0 plan.1 plan.2
    pure (response plan.0 plan.1)
