-- ===== src/Contracts/CreateSound.antt =====
-- src/handlers/contracts.rs: `create_contract` keeps the contract tables sound.
use invoices_contracts.Base.{
  ◌<◌, ◌≤◌, ◌≡◌, refl, sym, ap, ◌∙◌, subst, false, Bool-cases, inl, inr, List, [], ◌∷◌, ◌++◌, none,
  some, arith, Text, ◌==◌, text_eq, option_eq, option_beq_iff, eq_of_==, find, any, count, All,
  length, ℕ,
}
use invoices_contracts.Base.Int.{pos}
use invoices_contracts.RateLimit.{Time}
use invoices_contracts.Models.{
  Contract, ContractPayload, ContractSignature, SignatureSlotDefinition, CreateContractRequest,
}
use invoices_contracts.Database.{Database, is_contract, slot_of, signature_of, contract_row}
use invoices_contracts.Server.{Server, Outcome, done, failed, Faults, query, acquire, >>=-done}
use invoices_contracts.Server.Keeps.{query-done}
use invoices_contracts.Contracts.Access.{Externals, pending}
use invoices_contracts.Contracts.Admin.{
  as_i32, insert_slots, check_request, create_transaction, create_contract,
}
use invoices_contracts.Contracts.Create.{
  insert_slots-slots, insert_slots-contracts, find-new, check_request-done, create_transaction-done,
  create_contract-failed,
}
use invoices_contracts.Contracts.SlotCounts.{filled_of, filled-le-slots}
use invoices_contracts.Contracts.Consistent.{IsGenuine, Agrees, IsConsistent}
use invoices_contracts.Contracts.Sound.{
  IsSound, Agrees-same, insert_slots-ids, insert_slots-signatures,
}

none-signed :
    (ext : Externals) (j : Text) (c : Contract) (sigs : List ContractSignature)
    → count (signature_of j) sigs ≡ 0
    → All (IsGenuine ext j c) sigs
none-signed ext j c [] none_there = tt
none-signed ext j c (x ∷ xs) none_there =
    ((λ mine. absurd (ground arith)), none-signed ext j c xs (ground arith))

find-old :
    (id j : Text) (c : Contract) (cs : List Contract)
    → c.id ≡ some id
    → (id == j) ≡ false
    → find (is_contract j) (cs ++ c ∷ []) ≡ find (is_contract j) cs
find-old id j c [] named differ = ground (arith, option_beq_iff c.id (some j), text_eq.beq_iff id j)
find-old id j c (x ∷ xs) named differ = ground (arith, find-old id j c xs named differ)

as_i32-small : (n : ℕ) → n < 2147483648 → as_i32 n ≡ pos n
as_i32-small n h = ground arith

-- The tables after the transaction of a creation, whose UUID is on no slot and no signature.
module _ (ext : Externals) (id : Text) (p : ContractPayload) (ds : List SignatureSlotDefinition)
    (db : Database) (unused : any (is_contract id) db.contracts ≡ false)
    (no_slots : count (slot_of id) db.slots ≡ 0)
    (no_signatures : count (signature_of id) db.signatures ≡ 0) (named : p.id ≡ some id)
    (is_pending : p.status ≡ pending) (none_signed : p.completed_signatures ≡ pos 0)
    (all_required : p.required_signatures ≡ pos (length ds)) (no_hash : p.final_hash ≡ none)
    (some_slots : 1 ≤ length ds) (v : IsConsistent ext db) where
  abbrev base : Database
  base = record db { contracts = db.contracts ++ contract_row p ∷ [] }

  new-Agrees : Agrees ext (insert_slots id ds base).slots db.signatures id (contract_row p)
  new-Agrees =
      let (slots, filled) = insert_slots-slots id id ds base in
      let all_new : count (slot_of id) (insert_slots id ds base).slots ≡ length ds =
        ground (arith, slots, no_slots, text_eq.beq_iff id id) in
      let none_filled : count (filled_of id) (insert_slots id ds base).slots ≡ 0 =
        ground (arith, filled, filled-le-slots id db.slots, no_slots) in
      record {
        completed = none_signed ∙ ap pos (sym none_filled);
        counted = no_signatures ∙ sym none_filled;
        required = all_required ∙ ap pos (sym all_new);
        status = ground (arith, is_pending, all_new, none_filled, some_slots);
        final_hash = ground (arith, no_hash, all_new, none_filled, some_slots);
        genuine = none-signed ext id (contract_row p) db.signatures no_signatures;
      }

  created-rows :
      (j : Text) (c : Contract)
      → find (is_contract j) base.contracts ≡ some c
      → Agrees ext (insert_slots id ds base).slots db.signatures j c
  created-rows j c found = elim (Bool-cases (id == j)) [
    | inl here ↦
        let same : id ≡ j = eq_of_== id j here in
        let is_row : contract_row p ≡ c = ground (
          arith,
          ap (λ k. find (is_contract k) base.contracts) same ∙ found,
          find-new id (contract_row p) db.contracts unused named,
        ) in
        subst (λ k. Agrees ext (insert_slots id ds base).slots db.signatures k c) same
          (subst (Agrees ext (insert_slots id ds base).slots db.signatures id) is_row new-Agrees)
    | inr there ↦
        let (slots, filled) = insert_slots-slots id j ds base in
        Agrees-same ext j c db.slots _ db.signatures (ground (arith, slots)) filled
          (v.rows j c (sym (find-old id j (contract_row p) db.contracts named there) ∙ found))
  ]

-- What a UUID that was just drawn is: on no slot and no signature.
pub record IsUnused (uuid : Text) (db : Database) : Type 0 where
  pub no_slots : count (slot_of uuid) db.slots ≡ 0
  pub no_signatures : count (signature_of uuid) db.signatures ≡ 0

module _ (ext : Externals) where
  create_transaction-IsSound :
      (faults : Faults) (id : Text) (p : ContractPayload) (ds : List SignatureSlotDefinition)
      (s t : Server) (c : Contract)
      → IsUnused id s.db
      → p.id ≡ some id
      → p.status ≡ pending
      → p.completed_signatures ≡ pos 0
      → p.required_signatures ≡ pos (length ds)
      → p.final_hash ≡ none
      → 1 ≤ length ds
      → IsSound ext s.db
      → create_transaction faults id p ds s ≡ (done c, t)
      → IsSound ext t.db
  create_transaction-IsSound faults id p ds s t c fresh named is_pending none_signed all_required
        no_hash some_slots v h =
      let (unused, is_row, after) = create_transaction-done faults id p ds s t c named h in
      let base : Database = record s.db { contracts = s.db.contracts ++ contract_row p ∷ [] } in
      let (distinct, below) = insert_slots-ids id ds base v.consistent.slot_ids v.below in
      subst (IsSound ext) (sym after) (record {
        consistent = record {
          slot_ids = distinct;
          rows = λ j d found.
              subst (λ sigs. Agrees ext (insert_slots id ds base).slots sigs j d)
                (sym (insert_slots-signatures id ds base))
                (created-rows ext id p ds s.db unused fresh.no_slots fresh.no_signatures named
                  is_pending none_signed all_required no_hash some_slots v.consistent j d
                  (ap (find (is_contract j)) (sym (insert_slots-contracts id ds base)) ∙ found));
        };
        below = below;
      })

  created-IsSound :
      (faults : Faults) (uuid : Text) (now : Time) (r : CreateContractRequest) (s t : Server)
      (c : Contract)
      → IsUnused uuid s.db
      → length r.signature_slots < 2147483648
      → IsSound ext s.db
      → create_contract ext faults uuid now r s ≡ (done c, t)
      → IsSound ext t.db
  unfolding create_contract
  created-IsSound faults uuid now r s t c fresh small v h =
      let (_, s₁, first, rest) = >>=-done (check_request r) _ s t c h in
      let (_, s₂, second, last) = >>=-done (query (faults acquire) (λ db. tt)) _ s₁ t c rest in
      let (kept, some_slots) = check_request-done r s s₁ _ first in
      let same : s₂.db ≡ s.db = ap (λ w. w.db) ((query-done _ _ s₁ s₂ _ second).1 ∙ kept) in
      create_transaction-IsSound faults uuid _ r.signature_slots s₂ t c
        (subst (IsUnused uuid) (sym same) fresh) refl refl refl
        (as_i32-small (length r.signature_slots) small) refl some_slots
        (subst (IsSound ext) (sym same) v) last

  -- A creation keeps the contract tables sound, done or failed. The new UUID is on no slot and no
  -- signature, and the request has fewer than 2 ^ 31 slots.
  pub create_contract-IsSound :
      (faults : Faults) (uuid : Text) (now : Time) (r : CreateContractRequest) (s : Server)
      → IsUnused uuid s.db
      → length r.signature_slots < 2147483648
      → IsSound ext s.db
      → IsSound ext (create_contract ext faults uuid now r s).1.db
  create_contract-IsSound faults uuid now r s fresh small v =
      go (create_contract ext faults uuid now r s) refl
    where
      go :
          (x : Outcome Contract × Server)
          → create_contract ext faults uuid now r s ≡ x
          → IsSound ext x.1.db
      go (done c, t) e = created-IsSound faults uuid now r s t c fresh small v e
      go (failed c, t) e =
          subst (IsSound ext) (sym (create_contract-failed ext faults uuid now r s t c e)) v
