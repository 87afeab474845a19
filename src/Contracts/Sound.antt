-- ===== src/Contracts/Sound.antt =====
-- src/handlers/contracts.rs: the invariant of the contract tables with the ids of new slots, and
-- `create_contract`.
use invoices_contracts.Base.{
  ℕ, suc, ◌<◌, ◌≡◌, refl, sym, ap, ◌∙◌, subst, true, false, Bool-cases, inl, inr, List, [], ◌∷◌,
  ◌++◌, arith, Text, text_eq, option_eq, eq_of_==, any-append, count, All, All-append,
}
use invoices_contracts.Base.Int.{ℤ, pos, int_eq}
use invoices_contracts.Models.{
  Contract, ContractSignature, ContractSignatureSlot, CreateContractSignatureSlot,
  SignatureSlotDefinition,
}
use invoices_contracts.Database.{Database, is_slot, slot_of, slot_row, insert_slot}
use invoices_contracts.Contracts.Access.{Externals}
use invoices_contracts.Contracts.Admin.{insert_slots}
use invoices_contracts.Contracts.SlotCounts.{filled_of, Distinct}
use invoices_contracts.Contracts.Consistent.{Agrees, IsConsistent}

-- The id of a slot is below the next one that the table gives.
abbrev pub IsBelow : ℕ → ContractSignatureSlot → Type 0
IsBelow n x = (m : ℕ) → is_slot (pos m) x ≡ true → m < n

pub record IsSound (ext : Externals) (db : Database) : Type 0 where
  pub consistent : IsConsistent ext db
  pub below : All (IsBelow db.next_slot) db.slots

All-IsBelow :
    (n : ℕ) (xs : List ContractSignatureSlot) → All (IsBelow n) xs → All (IsBelow (suc n)) xs
All-IsBelow n [] h = tt
All-IsBelow n (x ∷ xs) h = ((λ m e. let p = h.0 m e in omega arith), All-IsBelow n xs h.1)

module _ (n : ℕ) (new : CreateContractSignatureSlot) where
  below-other :
      (k : ℤ) (x : ContractSignatureSlot)
      → IsBelow n x
      → is_slot k x ≡ true
      → is_slot k (slot_row n new) ≡ false
  below-other k x b e = elim (Bool-cases (is_slot k (slot_row n new))) [
    | inl same ↦
        let p = b n (subst (λ i. is_slot i x ≡ true) (sym (eq_of_== (pos n) k same)) e) in
        absurd (omega arith)
    | inr other ↦ other
  ]

  slot_row-Distinct :
      (xs : List ContractSignatureSlot)
      → Distinct xs
      → All (IsBelow n) xs
      → Distinct (xs ++ slot_row n new ∷ [])
  slot_row-Distinct [] d b = ((λ k e. refl), tt)
  slot_row-Distinct (x ∷ xs) d b = (
    (λ k e.
        ground
          (arith, any-append (is_slot k) xs (slot_row n new ∷ []), d.0 k e, below-other k x b.0 e)),
    slot_row-Distinct xs d.1 b.1,
  )

  slot_row-IsBelow : IsBelow (suc n) (slot_row n new)
  slot_row-IsBelow m e = ground arith

abbrev open_slot_of : Text → SignatureSlotDefinition → CreateContractSignatureSlot
open_slot_of id d = record {
  contract_id = id;
  slot_name = d.name;
  slot_order = d.order;
  is_filled = false;
}

pub insert_slots-ids :
    (id : Text) (ds : List SignatureSlotDefinition) (db : Database)
    → Distinct db.slots
    → All (IsBelow db.next_slot) db.slots
    → Distinct (insert_slots id ds db).slots
      × All (IsBelow (insert_slots id ds db).next_slot) (insert_slots id ds db).slots
unfolding insert_slots insert_slot
insert_slots-ids id [] db d b = (d, b)
insert_slots-ids id (e ∷ es) db d b =
    let new = open_slot_of id e in
    insert_slots-ids id es _ (slot_row-Distinct db.next_slot new db.slots d b) (
      All-append (IsBelow (suc db.next_slot)) db.slots (slot_row db.next_slot new ∷ [])
        (All-IsBelow db.next_slot db.slots b) (slot_row-IsBelow db.next_slot new, tt))

pub insert_slots-signatures :
    (id : Text) (ds : List SignatureSlotDefinition) (db : Database)
    → (insert_slots id ds db).signatures ≡ db.signatures
unfolding insert_slots insert_slot
insert_slots-signatures id [] db = refl
insert_slots-signatures id (d ∷ ds) db = insert_slots-signatures id ds _

-- A contract of which the tables show the same.
module _ (ext : Externals) (j : Text) (c : Contract) (slots slots' : List ContractSignatureSlot)
    (sigs : List ContractSignature) where
  pub Agrees-same :
      count (slot_of j) slots' ≡ count (slot_of j) slots
      → count (filled_of j) slots' ≡ count (filled_of j) slots
      → Agrees ext slots sigs j c
      → Agrees ext slots' sigs j c
  Agrees-same same filled a = record {
    completed = a.completed ∙ ap pos (sym filled);
    counted = a.counted ∙ sym filled;
    required = a.required ∙ ap pos (sym same);
    status = rw (filled, same) a.status;
    final_hash = rw (filled, same) a.final_hash;
    genuine = a.genuine;
  }
