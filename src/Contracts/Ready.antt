-- ===== src/Contracts/Ready.antt =====
-- src/handlers/contracts.rs: `sign_contract` where everything is in order.
use invoices_contracts.Base.{
  suc, ◌≡◌, ◌++◌, refl, ap, ap₂, filter, ◌∙◌, Bool, true, false, not, List, [], ◌∷◌, map-append,
  Option, none, some, Text, ◌==◌, ◌||◌, text_eq, option_eq, find, any, length, ◌&&◌, if◌then◌else◌,
}
use invoices_contracts.Base.Int.{ℤ, int_eq}
use invoices_contracts.RateLimit.{allowed, check_rate_limit, reset_attempts}
use invoices_contracts.Crypto.{IsLawful, IsBytes, generate_verification_code, hash_content}
use invoices_contracts.Crypto.FinalHash.{final_hash-entries}
use invoices_contracts.Crypto.Signatures.{verify-sign}
use invoices_contracts.Models.{
  Contract, Customer, ContractSignature, CreateContractSignature, ContractSignatureSlot,
  SignContractRequest, SignContractResponse,
}
use invoices_contracts.Database.{
  is_contract, is_customer, is_slot, slot_of, signature_of, signature_row, insert_signature,
  clashes, same_slot,
}
use invoices_contracts.Server.{
  Server, done, Handler, Call, acquire, load_contract, load_customer, load_slot, load_signatures,
  insert_signature_call, update_slot_call, update_contract_call, Faults, ◌>>=◌, pure, or_fail,
  query, internal_server_error,
}
use invoices_contracts.Server.Runs.{
  run-bind, run-query, run-or_fail, run-require, write-runs, run-write,
}
use invoices_contracts.Contracts.Access.{
  Externals, Visit, pending, verify_customer_uuid, check_limit, settle, settled, authorize,
}
use invoices_contracts.Contracts.Sign.{
  SignInputs, or_internal, hash_all, open_slot, has_expired, new_signature, final_hash, is_last,
  insert_new, commit, prepare, response, sign_contract,
}

module _ (ext : Externals) where
  hash_all-some :
      (content : Text) (sigs : List ContractSignature) (new : CreateContractSignature)
      → (h : Text) × (hash_all ext content sigs new ≡ some h)
  unfolding hash_all
  hash_all-some content sigs new =
      let row = signature_row 0 new in
      let whole =
        final_hash-entries (λ s. s.signature_hash) (λ s. s.signed_at) (λ s. s.content_hash)
          ext.crypto content (sigs ++ row ∷ []) in
      (
        _,
        rw
            (
              map-append (λ s. s.signature_hash) sigs (row ∷ []),
              map-append (λ s. s.signed_at) sigs (row ∷ []),
              map-append (λ s. s.content_hash) sigs (row ∷ []),
            )
            at whole,
      )

  check_limit-runs :
      (v : Visit) (s : Server)
      → (check_rate_limit s.limiter v.client_ip v.check_at).0 ≡ allowed
      → check_limit ext v s
        ≡ (done tt, record s { limiter = (check_rate_limit s.limiter v.client_ip v.check_at).1 })
  unfolding check_limit
  check_limit-runs v s free = rw (free, check_limit) refl

  verify_customer_uuid-runs :
      (faults : Faults) (id uuid : Text) (s : Server) (c : Contract) (h : Customer)
      → ((call : Call) → faults call ≡ false)
      → ext.is_valid_uuid uuid ≡ true
      → find (is_contract id) s.db.contracts ≡ some c
      → find (is_customer uuid) s.db.customers ≡ some h
      → (h.id == some c.customer_id) ≡ true
      → verify_customer_uuid ext faults id uuid s ≡ (done (c, h), s)
  unfolding verify_customer_uuid pure
  verify_customer_uuid-runs faults id uuid s c h calm valid found holder owns =
      run-require _ _ _ s _ valid (
        run-query _ _ _ s _ _ (calm load_contract) found (
          run-or_fail _ _ _ s c _ refl (
            run-query _ _ _ s _ _ (calm load_customer) holder
              (run-or_fail _ _ _ s h _ refl (run-require _ _ _ s _ owns refl)))))

  authorize-runs :
      (v : Visit) (id uuid : Text) (s : Server) (c : Contract) (h : Customer)
      → ((call : Call) → v.faults call ≡ false)
      → (check_rate_limit s.limiter v.client_ip v.check_at).0 ≡ allowed
      → ext.is_valid_uuid uuid ≡ true
      → find (is_contract id) s.db.contracts ≡ some c
      → find (is_customer uuid) s.db.customers ≡ some h
      → (h.id == some c.customer_id) ≡ true
      → (t : Server) × (authorize ext v id uuid s ≡ (done (c, h), t)) × (t.db ≡ s.db)
  unfolding authorize settled settle
  authorize-runs v id uuid s c h calm free valid found holder owns =
      let cleaned = (check_rate_limit s.limiter v.client_ip v.check_at).1 in
      let u : Server = record s { limiter = cleaned } in
      let verified =
        verify_customer_uuid-runs v.faults id uuid u c h calm valid found holder owns in
      (
        record s { limiter = reset_attempts cleaned v.client_ip },
        run-bind _ _ s u tt _ (check_limit-runs v s free)
            (run-query _ _ _ u tt _ (calm acquire) refl (rw (verified, settle) refl)),
        refl,
      )

  open_slot-runs :
      (faults : Faults) (id : Text) (slot_id : ℤ) (s : Server) (slot : ContractSignatureSlot)
      → ((call : Call) → faults call ≡ false)
      → find (λ x. is_slot slot_id x && slot_of id x) s.db.slots ≡ some slot
      → slot.is_filled ≡ false
      → open_slot ext faults id slot_id s ≡ (done slot, s)
  unfolding open_slot pure
  open_slot-runs faults id slot_id s slot calm found vacant =
      run-query _ _ _ s _ _ (calm load_slot) found
        (run-or_fail _ _ _ s slot _ refl (run-require _ _ _ s _ (ap not vacant) refl))

  new_signature-runs :
      (i : SignInputs) (id : Text) (request : SignContractRequest) (c : Contract) (s : Server)
      (code : Text)
      → IsLawful ext.crypto
      → IsBytes i.seed
      → length i.seed ≡ 32
      → generate_verification_code i.draw ≡ some code
      → (new : CreateContractSignature) × (new_signature ext i id request c s ≡ (done new, s))
        × (new.verification_code ≡ code)
        × (new.slot_id ≡ some request.slot_id)
  unfolding new_signature or_internal pure
  new_signature-runs i id request c s code lawful bytes long drawn =
      let (signature, made, _) =
        verify-sign ext.crypto i.seed id (hash_content ext.crypto c.content)
          (ext.to_rfc3339 i.signed_at) lawful bytes long in
      (
        _,
        run-bind _ _ s s signature _ (rw (made, or_internal) refl)
            (run-or_fail _ _ _ s code _ drawn refl),
        refl,
        refl,
      )

  -- The final hash of a signing, where it is the last one.
  abbrev hashed : Faults → Text → Contract → CreateContractSignature → Handler (Option Text)
  hashed faults id c new = do
    existing ←
        query (faults load_signatures) (λ db. ext.arrange (filter (signature_of id) db.signatures))
    hash ← or_fail internal_server_error (hash_all ext c.content existing new)
    pure (some hash)

  hashed-runs :
      (faults : Faults) (id : Text) (c : Contract) (new : CreateContractSignature) (s : Server)
      → ((call : Call) → faults call ≡ false)
      → (last : Bool)
      → (hash : Option Text) × ((if last then hashed faults id c new else pure none) s
          ≡ (done hash, s))
  unfolding pure
  hashed-runs faults id c new s calm true =
      let sigs = ext.arrange (filter (signature_of id) s.db.signatures) in
      let (h, made) = hash_all-some c.content sigs new in
      (
        some h,
        run-query _ _ _ s _ _ (calm load_signatures) refl (run-or_fail _ _ _ s h _ made refl),
      )
  hashed-runs faults id c new s calm false = (none, refl)

  final_hash-runs :
      (faults : Faults) (id : Text) (c : Contract) (new : CreateContractSignature) (s : Server)
      → ((call : Call) → faults call ≡ false)
      → (hash : Option Text) × (final_hash ext faults id c new s ≡ (done hash, s))
  unfolding final_hash
  final_hash-runs faults id c new s calm = hashed-runs faults id c new s calm (is_last ext c)

  insert_new-runs :
      (faults : Faults) (new : CreateContractSignature) (s : Server)
      → ((call : Call) → faults call ≡ false)
      → any (clashes new) s.db.signatures ≡ false
      → (t : Server) × (insert_new ext faults new s ≡ (done tt, t))
  unfolding insert_new insert_signature
  insert_new-runs faults new s calm fresh = (
    record s {
      db = record s.db {
        signatures = s.db.signatures ++ signature_row s.db.next_signature new ∷ [];
        next_signature = suc s.db.next_signature;
      };
    },
    rw (calm insert_signature_call, fresh, insert_new, insert_signature) refl,
  )

  commit-runs :
      (faults : Faults) (id : Text) (slot_id : ℤ) (c : Contract) (new : CreateContractSignature)
      (hash : Option Text) (s : Server)
      → ((call : Call) → faults call ≡ false)
      → any (clashes new) s.db.signatures ≡ false
      → (t : Server) × (commit ext faults id slot_id c new hash s ≡ (done tt, t))
  unfolding commit
  commit-runs faults id slot_id c new hash s calm fresh =
      let (u, inserted) = insert_new-runs faults new s calm fresh in
      (
        _,
        run-bind _ _ s u tt _ inserted (
            run-write _ _ _ u _ (calm update_slot_call)
              (write-runs _ _ _ (calm update_contract_call))),
      )

  -- A signing is done when it is accepted, the client is not limited, no call of the database
  -- fails, the customer of a pending contract that has not expired asks for an open slot of it,
  -- and neither the new code nor the slot has a signature yet. The cryptography is lawful, the
  -- seed is 32 bytes, and a code is drawn.
  pub sign_contract-runs :
      (i : SignInputs) (id : Text) (request : SignContractRequest) (s : Server) (c : Contract)
      (h : Customer) (slot : ContractSignatureSlot) (code : Text)
      → IsLawful ext.crypto
      → IsBytes i.seed
      → length i.seed ≡ 32
      → ((call : Call) → i.visit.faults call ≡ false)
      → request.accepted ≡ true
      → (check_rate_limit s.limiter i.visit.client_ip i.visit.check_at).0 ≡ allowed
      → ext.is_valid_uuid request.customer_uuid ≡ true
      → find (is_contract id) s.db.contracts ≡ some c
      → find (is_customer request.customer_uuid) s.db.customers ≡ some h
      → (h.id == some c.customer_id) ≡ true
      → find (λ x. is_slot request.slot_id x && slot_of id x) s.db.slots ≡ some slot
      → slot.is_filled ≡ false
      → (c.status == pending) ≡ true
      → has_expired ext c.expires_at i.expiry_at ≡ false
      → generate_verification_code i.draw ≡ some code
      → any
          (λ x. (x.verification_code == code) || (x.slot_id == some request.slot_id))
          s.db.signatures
        ≡ false
      → (r : SignContractResponse) × (t : Server) × (sign_contract ext i id request s ≡ (done r, t))
  unfolding sign_contract prepare pure
  sign_contract-runs i id request s c h slot code lawful bytes long calm accepted free valid found
        holder owns slot_found vacant is_pending current drawn fresh =
      let faults = i.visit.faults in
      let (t, allowed_in, same) =
        authorize-runs i.visit id request.customer_uuid s c h calm free valid found holder owns in
      let opened =
        open_slot-runs faults id request.slot_id t slot calm
          (ap (λ d. find (λ x. is_slot request.slot_id x && slot_of id x) d.slots) same
            ∙ slot_found)
          vacant in
      let (new, made, is_code, is_slot_id) =
        new_signature-runs i id request c t code lawful bytes long drawn in
      let (hash, hashed_so) = final_hash-runs faults id c new t calm in
      let clear : any (clashes new) t.db.signatures ≡ false =
        ap (λ d. any (clashes new) d.signatures) same
        ∙ ap₂ (λ v o. any (λ x. (x.verification_code == v) || same_slot o x) s.db.signatures)
            is_code is_slot_id
        ∙ fresh in
      let (u, committed) = commit-runs faults id request.slot_id c new hash t calm clear in
      (
        response ext c new,
        u,
        run-bind _ _ s t (c, new, hash) _
            (run-require _ _ _ s _ accepted (
              run-bind _ _ s t (c, h) _ allowed_in
                (run-bind _ _ t t slot _ opened (
                  run-require _ _ _ t _ is_pending (
                    run-require _ _ _ t _ (ap not current)
                      (run-bind _ _ t t new _ made (run-bind _ _ t t hash _ hashed_so refl)))))))
            (run-bind _ _ t u tt _ committed refl),
      )
