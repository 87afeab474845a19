-- ===== src/Contracts/SignEffect.antt =====
-- src/handlers/contracts.rs: what `sign_contract` and the access check have read when they are done.
use invoices_contracts.Base.{
  ◌≡◌, refl, ap, ap₂, subst, filter, ◌∙◌, true, false, not, Option, none, some, arith, Text, ◌==◌,
  text_eq, option_eq, find, ◌&&◌, if◌then◌else◌,
}
use invoices_contracts.Base.Int.{ℤ}
use invoices_contracts.Models.{
  Contract, Customer, CreateContractSignature, ContractSignatureSlot, SignContractRequest,
}
use invoices_contracts.Database.{Database, is_contract, is_customer, is_slot, slot_of, signature_of}
use invoices_contracts.Crypto.{
  SignResult, ok, err, generate_keypair, generate_verification_code, hash_content,
}
use invoices_contracts.Crypto
use invoices_contracts.Server.{
  query, or_fail, bad_request, conflict, gone, acquire, ◌>>=◌, pure, fail, Server, Outcome, done,
  failed, Faults, >>=-done,
}
use invoices_contracts.Server.Keeps.{query-done, or_fail-done, pure-done, db_after}
use invoices_contracts.Server.Reads.{Reads, Reads-of, Reads-pure, Reads-require, Reads-bind}
use invoices_contracts.Contracts.Access.{
  Externals, Visit, pending, verify_customer_uuid, check_limit, settle, settled, authorize,
}
use invoices_contracts.Contracts.Sign.{
  SignInputs, or_internal, hash_all, open_slot, has_expired, new_signature, final_hash, is_last,
  prepare,
}
use invoices_contracts.Contracts.SignKeeps.{
  authorize-KeepsDb, open_slot-KeepsDb, new_signature-KeepsDb, final_hash-KeepsDb,
  check_limit-KeepsDb,
}

or_internal-done :
    (r : SignResult) (s t : Server) (a : Text)
    → or_internal r s ≡ (done a, t)
    → (r ≡ ok a) × (t ≡ s)
unfolding or_internal pure fail
or_internal-done (ok b) s t a h = (ground arith, ground arith)
or_internal-done (err e) s t a h = absurd (ground arith)

module _ (ext : Externals) where
  verify_customer_uuid-done :
      (faults : Faults) (contract_id uuid : Text) (s t : Server) (c : Contract) (h : Customer)
      → verify_customer_uuid ext faults contract_id uuid s ≡ (done (c, h), t)
      → (find (is_contract contract_id) s.db.contracts ≡ some c)
        × (find (is_customer uuid) s.db.customers ≡ some h)
        × ((h.id == some c.customer_id) ≡ true)
        × (ext.is_valid_uuid uuid ≡ true)
  unfolding verify_customer_uuid ◌>>=◌
  verify_customer_uuid-done faults contract_id uuid s t c h e = ground arith

  settle-done :
      (v : Visit) (o : Outcome (Contract × Customer)) (s t : Server) (found : Contract × Customer)
      → settle ext v o s ≡ (done found, t)
      → o ≡ done found
  unfolding settle
  settle-done v (done a) s t found e = ground arith
  settle-done v (failed c) s t found e = absurd (ground arith)

  -- What stands behind every access: the contract, and the customer of that UUID, whose it is.
  pub record Authorized (uuid contract_id : Text) (db : Database) (found : Contract × Customer)
      : Type 0 where
    pub contract_found : find (is_contract contract_id) db.contracts ≡ some found.0
    pub customer_found : find (is_customer uuid) db.customers ≡ some found.1
    pub owns : (found.1.id == some found.0.customer_id) ≡ true
    pub uuid_valid : ext.is_valid_uuid uuid ≡ true

  -- An access that is let through has named a well-formed UUID of a stored customer, and a stored
  -- contract that belongs to this customer.
  pub authorize-done :
      (v : Visit) (contract_id uuid : Text) (s t : Server) (found : Contract × Customer)
      → authorize ext v contract_id uuid s ≡ (done found, t)
      → Authorized uuid contract_id s.db found
  unfolding authorize settled
  authorize-done v contract_id uuid s t found e =
      let (_, s₁, e₁, rest) = >>=-done (check_limit ext v) _ s t found e in
      let (_, s₂, e₂, last) = >>=-done (query (v.faults acquire) (λ db. tt)) _ s₁ t found rest in
      let same : s₂.db ≡ s.db =
        ap (λ r. r.db) (query-done _ _ s₁ s₂ _ e₂).1
        ∙ db_after (check_limit ext v) s s₁ _ (check_limit-KeepsDb ext v) e₁ in
      let verified = settle-done v _ _ t found last in
      let seen =
        verify_customer_uuid-done v.faults contract_id uuid s₂ _ found.0 found.1
          (ap₂ (λ o r. (o, r)) verified refl) in
      subst (λ db. Authorized uuid contract_id db found) same
        (record {
          contract_found = seen.0;
          customer_found = seen.1;
          owns = seen.2;
          uuid_valid = seen.3;
        })

  -- What a plan has read, for a request that accepts: the contract as it stands, pending and not
  -- expired, of the customer of the request, and a slot of it that is open; and the new signature.
  pub record Planned (i : SignInputs) (contract_id : Text) (request : SignContractRequest)
      (db : Database) (c : Contract) (new : CreateContractSignature) (hash : Option Text)
      : Type 0 where
    pub accepted : request.accepted ≡ true
    pub holder : Customer
    pub authorized : Authorized request.customer_uuid contract_id db (c, holder)
    pub slot : ContractSignatureSlot
    pub contract_found : find (is_contract contract_id) db.contracts ≡ some c
    pub slot_found :
        find (λ s. is_slot request.slot_id s && slot_of contract_id s) db.slots ≡ some slot
    pub slot_open : slot.is_filled ≡ false
    pub is_pending : (c.status == pending) ≡ true
    pub not_expired : has_expired ext c.expires_at i.expiry_at ≡ false
    pub new_made :
        Crypto.sign_contract ext.crypto
          (generate_keypair ext.crypto i.seed).1
          contract_id
          (hash_content ext.crypto c.content)
          (ext.to_rfc3339 i.signed_at)
        ≡ ok new.signature_hash
    pub new_contract : new.contract_id ≡ contract_id
    pub new_slot : new.slot_id ≡ some request.slot_id
    pub new_key : new.public_key ≡ (generate_keypair ext.crypto i.seed).0
    pub new_content : new.content_hash ≡ hash_content ext.crypto c.content
    pub new_time : new.signed_at ≡ ext.to_rfc3339 i.signed_at
    pub new_code : generate_verification_code i.draw ≡ some new.verification_code
    pub new_signer : new.signer_name ≡ request.signer_name
    pub new_ip : new.client_ip ≡ some (ext.ip_to_string i.visit.client_ip)
    pub new_agent : new.user_agent ≡ i.user_agent
    pub hash_made : hash ≡ (
        if is_last ext c
        then hash_all ext c.content
            (ext.arrange (filter (signature_of contract_id) db.signatures))
            new
        else none)

  abbrev Opened : Text → ℤ → Database → ContractSignatureSlot → Type 0
  Opened contract_id slot_id db slot =
      (find (λ s. is_slot slot_id s && slot_of contract_id s) db.slots ≡ some slot)
      × (slot.is_filled ≡ false)

  abbrev Hashed : Text → Contract → CreateContractSignature → Database → Option Text → Type 0
  Hashed contract_id c new db hash = hash ≡ (
      if is_last ext c
      then hash_all ext c.content (ext.arrange (filter (signature_of contract_id) db.signatures))
          new
      else none)

  open_slot-done :
      (faults : Faults) (contract_id : Text) (slot_id : ℤ) (s t : Server)
      (slot : ContractSignatureSlot)
      → open_slot ext faults contract_id slot_id s ≡ (done slot, t)
      → Opened contract_id slot_id s.db slot
  unfolding open_slot ◌>>=◌
  open_slot-done faults contract_id slot_id s t slot e = ground arith

  final_hash-done :
      (faults : Faults) (contract_id : Text) (c : Contract) (new : CreateContractSignature)
      (s t : Server) (hash : Option Text)
      → final_hash ext faults contract_id c new s ≡ (done hash, t)
      → Hashed contract_id c new s.db hash
  unfolding final_hash ◌>>=◌
  final_hash-done faults contract_id c new s t hash e = ground arith

  abbrev NewMade :
      SignInputs → Text → SignContractRequest → Contract → CreateContractSignature → Type 0
  NewMade i contract_id request c new =
      (Crypto.sign_contract ext.crypto (generate_keypair ext.crypto i.seed).1 contract_id
          (hash_content ext.crypto c.content) (ext.to_rfc3339 i.signed_at)
        ≡ ok new.signature_hash)
      × (new.contract_id ≡ contract_id)
      × (new.slot_id ≡ some request.slot_id)
      × (new.public_key ≡ (generate_keypair ext.crypto i.seed).0)
      × (new.content_hash ≡ hash_content ext.crypto c.content)
      × (new.signed_at ≡ ext.to_rfc3339 i.signed_at)
      × (generate_verification_code i.draw ≡ some new.verification_code)
      × (new.signer_name ≡ request.signer_name)
      × (new.client_ip ≡ some (ext.ip_to_string i.visit.client_ip))
      × (new.user_agent ≡ i.user_agent)

  new_signature-done :
      (i : SignInputs) (contract_id : Text) (request : SignContractRequest) (c : Contract)
      (s t : Server) (new : CreateContractSignature)
      → new_signature ext i contract_id request c s ≡ (done new, t)
      → NewMade i contract_id request c new
  unfolding new_signature
  new_signature-done i contract_id request c s t new e =
      let (hash, s₁, e₁, rest) = >>=-done (or_internal _) _ s t new e in
      let (code, s₂, e₂, last) = >>=-done (or_fail _ _) _ s₁ t new rest in
      let made = (pure-done _ s₂ t new last).0 in
      let is_ok = (or_internal-done _ s s₁ hash e₁).0 in
      subst (NewMade i contract_id request c) made
        (is_ok, refl, refl, refl, refl, refl, (or_fail-done _ _ s₁ s₂ code e₂).0, refl, refl, refl)

  pub prepare-Reads :
      (i : SignInputs) (contract_id : Text) (request : SignContractRequest) (db : Database)
      → Reads db
          (prepare ext i contract_id request)
          (λ plan. Planned i contract_id request db plan.0 plan.1 plan.2)
  unfolding prepare
  prepare-Reads i contract_id request db =
      let faults = i.visit.faults in
      Reads-bind db _ _ _ _ (Reads-require db bad_request request.accepted) λ _ accepted.
        Reads-bind db _ _ _ _
          (Reads-of db (authorize ext i.visit contract_id request.customer_uuid)
            (λ d. Authorized request.customer_uuid contract_id d)
            (authorize-KeepsDb ext i.visit contract_id request.customer_uuid)
            (authorize-done i.visit contract_id request.customer_uuid))
          λ found seen.
            Reads-bind db _ _ _ _
              (Reads-of db (open_slot ext faults contract_id request.slot_id)
                (λ d. Opened contract_id request.slot_id d)
                (open_slot-KeepsDb ext faults contract_id request.slot_id)
                (open_slot-done faults contract_id request.slot_id))
              λ slot opened.
                Reads-bind db _ _ _ _ (Reads-require db conflict (found.0.status == pending))
                  λ _ is_pending.
                    Reads-bind db _ _ _ _
                      (Reads-require db gone (not (has_expired ext found.0.expires_at i.expiry_at)))
                      λ _ current.
                        Reads-bind db _ _ _ _
                          (Reads-of db (new_signature ext i contract_id request found.0)
                            (λ d. NewMade i contract_id request found.0)
                            (new_signature-KeepsDb ext i contract_id request found.0)
                            (new_signature-done i contract_id request found.0))
                          λ new made.
                            Reads-bind db _ _ _ _
                              (Reads-of db (final_hash ext faults contract_id found.0 new)
                                (λ d. Hashed contract_id found.0 new d)
                                (final_hash-KeepsDb ext faults contract_id found.0 new)
                                (final_hash-done faults contract_id found.0 new))
                              λ hash hashed.
                                Reads-pure db (found.0, new, hash)
                                  (λ plan. Planned i contract_id request db plan.0 plan.1 plan.2)
                                  (record {
                                    accepted = accepted;
                                    holder = found.1;
                                    authorized = seen;
                                    slot = slot;
                                    contract_found = seen.contract_found;
                                    slot_found = opened.0;
                                    slot_open = opened.1;
                                    is_pending = is_pending;
                                    not_expired = ground arith;
                                    new_made = made.0;
                                    new_contract = made.1;
                                    new_slot = made.2;
                                    new_key = made.3;
                                    new_content = made.4;
                                    new_time = made.5;
                                    new_code = made.6;
                                    new_signer = made.7;
                                    new_ip = made.8;
                                    new_agent = made.9;
                                    hash_made = hashed;
                                  })
