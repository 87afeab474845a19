-- ===== src/Contracts/SlotCounts.antt =====
-- Counting the slots of a contract, and what filling one of them does to the counts.
use invoices_contracts.Base.{
  suc, ◌≤◌, ◌≡◌, refl, Bool, true, false, ◌&&◌, List, [], ◌∷◌, none, some, arith, Text, ◌==◌,
  text_eq, option_eq, Bool-cases, inl, inr, find, any, count, update, length, sym, ◌∙◌,
  if◌then◌else◌,
}
use invoices_contracts.Base.Int.{ℤ, int_eq}
use invoices_contracts.Models.{ContractSignatureSlot}
use invoices_contracts.Database.{is_slot, slot_of, fill}

abbrev pub filled_of : Text → ContractSignatureSlot → Bool
filled_of i s = slot_of i s && s.is_filled

-- No two slots have one id.
abbrev pub Distinct : List ContractSignatureSlot → Type 0
Distinct [] = Unit {0}
Distinct (x ∷ xs) = ((k : ℤ) → is_slot k x ≡ true → any (is_slot k) xs ≡ false) × Distinct xs

pub slot_of-fill :
    (j : Text) (k : ℤ) (xs : List ContractSignatureSlot)
    → count (slot_of j) (update (is_slot k) fill xs) ≡ count (slot_of j) xs
slot_of-fill j k [] = refl
slot_of-fill j k (x ∷ xs) = ground (arith, slot_of-fill j k xs)

any-fill :
    (j k : ℤ) (xs : List ContractSignatureSlot)
    → any (is_slot j) (update (is_slot k) fill xs) ≡ any (is_slot j) xs
any-fill j k [] = refl
any-fill j k (x ∷ xs) = ground (arith, any-fill j k xs)

pub fill-id :
    (j k : ℤ) (x : ContractSignatureSlot)
    → is_slot j (if is_slot k x then fill x else x) ≡ is_slot j x
fill-id j k x = ground arith

pub fill-Distinct :
    (k : ℤ) (xs : List ContractSignatureSlot) → Distinct xs → Distinct (update (is_slot k) fill xs)
fill-Distinct k [] d = tt
fill-Distinct k (x ∷ xs) d =
    (λ j e. any-fill j k xs ∙ d.0 j (sym (fill-id j k x) ∙ e), fill-Distinct k xs d.1)

update-none :
    (k : ℤ) (xs : List ContractSignatureSlot)
    → any (is_slot k) xs ≡ false
    → update (is_slot k) fill xs ≡ xs
update-none k [] h = refl
update-none k (x ∷ xs) h = ground (arith, update-none k xs)

find-none :
    (k : ℤ) (i : Text) (xs : List ContractSignatureSlot)
    → any (is_slot k) xs ≡ false
    → find (λ s. is_slot k s && slot_of i s) xs ≡ none
find-none k i [] h = refl
find-none k i (x ∷ xs) h = ground (arith, find-none k i xs)

pub filled-le-slots :
    (i : Text) (xs : List ContractSignatureSlot) → count (filled_of i) xs ≤ count (slot_of i) xs
filled-le-slots i [] = omega arith
filled-le-slots i (x ∷ xs) = ground (arith, filled-le-slots i xs)

pub slots-le-length :
    (i : Text) (xs : List ContractSignatureSlot) → count (slot_of i) xs ≤ length xs
slots-le-length i [] = omega arith
slots-le-length i (x ∷ xs) = ground (arith, slots-le-length i xs)

-- An open slot of contract `i` that is filled counts for `i` alone.
pub fill-count :
    (k : ℤ) (i j : Text) (slot : ContractSignatureSlot) (xs : List ContractSignatureSlot)
    → Distinct xs
    → find (λ s. is_slot k s && slot_of i s) xs ≡ some slot
    → slot.is_filled ≡ false
    → count (filled_of j) (update (is_slot k) fill xs)
      ≡ (if i == j then suc (count (filled_of j) xs) else count (filled_of j) xs)
fill-count k i j slot [] d h o = absurd (ground arith)
fill-count k i j slot (x ∷ xs) d h o = elim (Bool-cases (is_slot k x)) [
  | inl here ↦ ground (
    arith,
    update-none k xs (d.0 k here),
    find-none k i xs (d.0 k here),
    text_eq.beq_iff x.contract_id i,
    text_eq.beq_iff x.contract_id j,
    text_eq.beq_iff i j,
  )
  | inr there ↦ ground (arith, fill-count k i j slot xs d.1)
]
