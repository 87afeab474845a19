-- ===== src/Contracts/Once.antt =====
-- src/handlers/contracts.rs: a second `sign_contract` for one slot.
use invoices_contracts.Base.{
  ◌≡◌, sym, ap, ◌∙◌, true, List, [], ◌∷◌, some, arith, Text, text_eq, option_eq, find, update, ◌&&◌,
}
use invoices_contracts.Base.Int.{ℤ, int_eq}
use invoices_contracts.Models.{ContractSignatureSlot, SignContractRequest, SignContractResponse}
use invoices_contracts.Database.{
  is_slot, slot_of, fill, insert_signature, fill_slot, update_contract_row,
}
use invoices_contracts.Server.{Server, done}
use invoices_contracts.Contracts.Access.{Externals}
use invoices_contracts.Contracts.Sign.{SignInputs, sign_contract}
use invoices_contracts.Contracts.Commit.{sign-done}

filled_found :
    (k : ℤ) (j : Text) (slot : ContractSignatureSlot) (xs : List ContractSignatureSlot)
    → find (λ s. is_slot k s && slot_of j s) (update (is_slot k) fill xs) ≡ some slot
    → slot.is_filled ≡ true
filled_found k j slot [] h = absurd (ground arith)
filled_found k j slot (x ∷ xs) h = ground (arith, filled_found k j slot xs)

pub slots-after :
    (ext : Externals) (i : SignInputs) (id : Text) (request : SignContractRequest) (s t : Server)
    (r : SignContractResponse)
    → sign_contract ext i id request s ≡ (done r, t)
    → t.db.slots ≡ update (is_slot request.slot_id) fill s.db.slots
unfolding insert_signature fill_slot update_contract_row
slots-after ext i id request s t r e =
    let (c, new, hash, db, pl, inserted, written, _) = sign-done ext i id request s t r e in
    ap (λ d. d.slots) written ∙ ap (update (is_slot request.slot_id) fill) (ground arith)

-- After a signing of a slot, no signing that names that slot is done next, whoever asks and
-- whatever contract is named.
pub signed_once :
    (ext : Externals) (i i' : SignInputs) (id id' : Text) (request request' : SignContractRequest)
    (s t : Server) (r : SignContractResponse)
    → sign_contract ext i id request s ≡ (done r, t)
    → request'.slot_id ≡ request.slot_id
    → (r' : SignContractResponse) (u : Server)
    → ¬ (sign_contract ext i' id' request' t ≡ (done r', u))
signed_once ext i i' id id' request request' s t r first same r' u second =
    let (c, new, hash, db, pl, _, _, _) = sign-done ext i' id' request' t u r' second in
    let found =
      ap (λ k. find (λ x. is_slot k x && slot_of id' x) t.db.slots) (sym same) ∙ pl.slot_found in
    let after = slots-after ext i id request s t r first in
    let filled =
      filled_found request.slot_id id' pl.slot s.db.slots
        (ap (find (λ x. is_slot request.slot_id x && slot_of id' x)) (sym after) ∙ found) in
    ground (arith, filled, pl.slot_open)
