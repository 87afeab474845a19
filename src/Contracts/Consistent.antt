-- ===== src/Contracts/Consistent.antt =====
-- The invariant of the contract tables: what a contract records of its signatures is what the
-- slots and the signatures show, and every signature of it is genuine.
use invoices_contracts.Base.{
  ◌≡◌, true, List, map, Option, none, some, Text, text_eq, option_eq, leb, find, count, filter, All,
  if◌then◌else◌,
}
use invoices_contracts.Base.Int.{pos}
use invoices_contracts.Crypto.{verify_signature, hash_content, generate_final_hash}
use invoices_contracts.Models.{Contract, ContractSignature, ContractSignatureSlot}
use invoices_contracts.Database.{Database, is_contract, slot_of, signature_of}
use invoices_contracts.Contracts.Access.{Externals, pending, signed}
use invoices_contracts.Contracts.SlotCounts.{filled_of, Distinct}

module _ (ext : Externals) where
  -- The final hash over stored signatures, as `verify_contract` computes it.
  abbrev pub hash_of : Text → List ContractSignature → Option Text
  hash_of content sigs =
      generate_final_hash ext.crypto content (map (λ s. s.signature_hash) sigs)
        (map (λ s. s.signed_at) sigs) (map (λ s. s.content_hash) sigs)

  -- A signature of contract `i` verifies, and is over the content that the contract has.
  abbrev pub IsGenuine : Text → Contract → ContractSignature → Type 0
  IsGenuine i c s =
      signature_of i s ≡ true
      → (verify_signature ext.crypto s.public_key s.signature_hash i s.content_hash s.signed_at
          ≡ true)
        × (s.content_hash ≡ hash_content ext.crypto c.content)

  pub record Agrees (slots : List ContractSignatureSlot) (sigs : List ContractSignature) (i : Text)
      (c : Contract) : Type 0 where
    pub completed : c.completed_signatures ≡ pos (count (filled_of i) slots)
    pub counted : count (signature_of i) sigs ≡ count (filled_of i) slots
    pub required : c.required_signatures ≡ pos (count (slot_of i) slots)
    pub status :
        c.status
        ≡ (if leb (count (slot_of i) slots) (count (filled_of i) slots) then signed else pending)
    pub final_hash : c.final_hash ≡ (
        if leb (count (slot_of i) slots) (count (filled_of i) slots)
        then hash_of c.content (filter (signature_of i) sigs)
        else none)
    pub genuine : All (IsGenuine i c) sigs

  pub record IsConsistent (db : Database) : Type 0 where
    pub slot_ids : Distinct db.slots
    pub rows :
        (i : Text) (c : Contract)
        → find (is_contract i) db.contracts ≡ some c
        → Agrees db.slots db.signatures i c
