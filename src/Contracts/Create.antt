-- ===== src/Contracts/Create.antt =====
-- src/handlers/contracts.rs: the effect of `create_contract` on the tables.
use invoices_contracts.Base.{
  suc, ◌+◌, ◌≡◌, ◌≤◌, ◌++◌, refl, sym, ap, ◌∙◌, false, List, [], ◌∷◌, some, arith, Text, ◌==◌,
  text_eq, option_eq, inl, inr, find, any, count, count-append, length, if◌then◌else◌,
}
use invoices_contracts.Base.Int.{pos}
use invoices_contracts.RateLimit.{Time}
use invoices_contracts.Models.{
  Contract, ContractPayload, CreateContractRequest, SignatureSlotDefinition,
}
use invoices_contracts.Database.{
  Database, is_contract, slot_of, insert_slot, slot_row, insert_contract, contract_row,
}
use invoices_contracts.Server.{
  Server, StatusCode, done, failed, Faults, ◌>>=◌, >>=-done, >>=-failed, require, query, acquire,
}
use invoices_contracts.Server.Keeps.{KeepsDb, KeepsDb-query, keeps_rules, db_after, query-done}
use invoices_contracts.Contracts.Access.{Externals, pending}
use invoices_contracts.Contracts.Admin.{
  as_i32, check_request, insert_slots, create_transaction, create_contract,
}
use invoices_contracts.Contracts.SlotCounts.{filled_of}

pub insert_slots-contracts :
    (id : Text) (ds : List SignatureSlotDefinition) (db : Database)
    → (insert_slots id ds db).contracts ≡ db.contracts
unfolding insert_slots insert_slot
insert_slots-contracts id [] db = refl
insert_slots-contracts id (d ∷ ds) db = insert_slots-contracts id ds _

-- Every definition of a slot is one open slot of the contract, and of no other.
pub insert_slots-slots :
    (id j : Text) (ds : List SignatureSlotDefinition) (db : Database)
    → (count (slot_of j) (insert_slots id ds db).slots
        ≡ count (slot_of j) db.slots + (if id == j then length ds else 0))
      × (count (filled_of j) (insert_slots id ds db).slots ≡ count (filled_of j) db.slots)
unfolding insert_slots insert_slot
insert_slots-slots id j [] db = ground arith
insert_slots-slots id j (d ∷ ds) db =
    let new =
      slot_row db.next_slot (record {
        contract_id = id;
        slot_name = d.name;
        slot_order = d.order;
        is_filled = false;
      }) in
    let (slots, filled) =
      insert_slots-slots id j ds
        (record db { slots = db.slots ++ new ∷ []; next_slot = suc db.next_slot }) in
    (
      slots ∙ ground (arith, count-append (slot_of j) db.slots (new ∷ [])),
      filled ∙ ground (arith, count-append (filled_of j) db.slots (new ∷ [])),
    )

pub find-new :
    (id : Text) (c : Contract) (cs : List Contract)
    → any (is_contract id) cs ≡ false
    → c.id ≡ some id
    → find (is_contract id) (cs ++ c ∷ []) ≡ some c
find-new id c [] fresh same = ground (arith, text_eq.beq_iff id id)
find-new id c (x ∷ xs) fresh same = ground (arith, find-new id c xs)

create_transaction-failed :
    (faults : Faults) (id : Text) (p : ContractPayload) (ds : List SignatureSlotDefinition)
    (s t : Server) (e : StatusCode)
    → create_transaction faults id p ds s ≡ (failed e, t)
    → t ≡ s
unfolding create_transaction
create_transaction-failed faults id p ds s t e h = ground arith

pub create_transaction-done :
    (faults : Faults) (id : Text) (p : ContractPayload) (ds : List SignatureSlotDefinition)
    (s t : Server) (c : Contract)
    → p.id ≡ some id
    → create_transaction faults id p ds s ≡ (done c, t)
    → (any (is_contract id) s.db.contracts ≡ false)
      × (c ≡ contract_row p)
      × (t.db
          ≡ insert_slots id ds (record s.db { contracts = s.db.contracts ++ contract_row p ∷ [] }))
unfolding create_transaction insert_contract
create_transaction-done faults id p ds s t c same h =
    ground (arith, find-new id (contract_row p) s.db.contracts)

create_transaction-lem :
    (faults : Faults) (id : Text) (p : ContractPayload) (ds : List SignatureSlotDefinition)
    (s t : Server) (c : Contract)
    → p.id ≡ some id
    → create_transaction faults id p ds s ≡ (done c, t)
    → (find (is_contract id) t.db.contracts ≡ some c)
      × (c ≡ contract_row p)
      × (count (slot_of id) t.db.slots ≡ count (slot_of id) s.db.slots + length ds)
      × (count (filled_of id) t.db.slots ≡ count (filled_of id) s.db.slots)
create_transaction-lem faults id p ds s t c same h =
    let (fresh, is_row, after) = create_transaction-done faults id p ds s t c same h in
    let base : Database = record s.db { contracts = s.db.contracts ++ contract_row p ∷ [] } in
    let (slots, filled) = insert_slots-slots id id ds base in
    (
      ap (λ d. find (is_contract id) d.contracts) after
          ∙ ap (find (is_contract id)) (insert_slots-contracts id ds base)
          ∙ find-new id (contract_row p) s.db.contracts fresh same
          ∙ ap some (sym is_row),
      is_row,
      ap (λ d. count (slot_of id) d.slots) after ∙ slots ∙ ground (arith, text_eq.beq_iff id id),
      ap (λ d. count (filled_of id) d.slots) after ∙ filled,
    )

pub check_request-done :
    (r : CreateContractRequest) (s t : Server) (u : Unit {0})
    → check_request r s ≡ (done u, t)
    → (t ≡ s) × (1 ≤ length r.signature_slots)
unfolding check_request ◌>>=◌ require
check_request-done r s t u h = ground arith

pub check_request-KeepsDb : (r : CreateContractRequest) → KeepsDb (check_request r)
unfolding check_request
check_request-KeepsDb r = search keeps_rules depth 10

module _ (ext : Externals) where
  -- A contract that is created has at least one slot, is found under its id, is pending with no
  -- signature counted and as many required as the request has slots (as an i32); the slots of its
  -- id grow by exactly these, none of them filled.
  pub create_contract-done :
      (faults : Faults) (uuid : Text) (now : Time) (r : CreateContractRequest) (s t : Server)
      (c : Contract)
      → create_contract ext faults uuid now r s ≡ (done c, t)
      → (1 ≤ length r.signature_slots)
        × (find (is_contract uuid) t.db.contracts ≡ some c)
        × (c.status ≡ pending)
        × (c.completed_signatures ≡ pos 0)
        × (c.required_signatures ≡ as_i32 (length r.signature_slots))
        × (count (slot_of uuid) t.db.slots
            ≡ count (slot_of uuid) s.db.slots + length r.signature_slots)
        × (count (filled_of uuid) t.db.slots ≡ count (filled_of uuid) s.db.slots)
  unfolding create_contract
  create_contract-done faults uuid now r s t c h =
      let (_, s₁, first, rest) = >>=-done (check_request r) _ s t c h in
      let (_, s₂, second, last) = >>=-done (query (faults acquire) (λ db. tt)) _ s₁ t c rest in
      let (kept, some_slots) = check_request-done r s s₁ _ first in
      let same : s₂.db ≡ s.db = ap (λ w. w.db) ((query-done _ _ s₁ s₂ _ second).1 ∙ kept) in
      let (found, row, slots, filled) =
        create_transaction-lem faults uuid _ r.signature_slots s₂ t c refl last in
      (
        some_slots,
        found,
        ap (λ x. x.status) row,
        ap (λ x. x.completed_signatures) row,
        ap (λ x. x.required_signatures) row,
        slots ∙ ap (λ d. count (slot_of uuid) d.slots + length r.signature_slots) same,
        filled ∙ ap (λ d. count (filled_of uuid) d.slots) same,
      )

  -- A creation that fails, at whatever call, leaves the database as it was.
  pub create_contract-failed :
      (faults : Faults) (uuid : Text) (now : Time) (r : CreateContractRequest) (s t : Server)
      (e : StatusCode)
      → create_contract ext faults uuid now r s ≡ (failed e, t)
      → t.db ≡ s.db
  unfolding create_contract
  create_contract-failed faults uuid now r s t e h = elim (>>=-failed (check_request r) _ s t e h) [
    | inl early ↦ db_after (check_request r) s t (failed e) (check_request-KeepsDb r) early
    | inr (_, s₁, first, rest) ↦
        let same = db_after (check_request r) s s₁ _ (check_request-KeepsDb r) first in
        elim (>>=-failed (query (faults acquire) (λ db. tt)) _ s₁ t e rest) [
          | inl busy ↦
              db_after (query (faults acquire) (λ db. tt)) s₁ t (failed e) (KeepsDb-query _ _) busy
              ∙ same
          | inr (_, s₂, second, last) ↦
              ap (λ w. w.db)
                (create_transaction-failed faults uuid _ r.signature_slots s₂ t e last
                  ∙ (query-done _ _ s₁ s₂ _ second).1)
              ∙ same
        ]
  ]
