-- ===== src/Contracts/SignSound.antt =====
-- src/handlers/contracts.rs: `sign_contract` keeps the contract tables sound, done or failed.
use invoices_contracts.Base.{
  ℕ, ◌<◌, ◌≡◌, refl, sym, ap, ◌∙◌, subst, false, List, [], ◌∷◌, arith, Text, All, length, update,
}
use invoices_contracts.Base.Int.{ℤ, pos}
use invoices_contracts.Crypto.{IsLawful, IsBytes}
use invoices_contracts.Models.{
  ContractSignature, ContractSignatureSlot, SignContractRequest, SignContractResponse,
}
use invoices_contracts.Database.{is_slot, fill, insert_signature, fill_slot, update_contract_row}
use invoices_contracts.Server.{
  Server, Outcome, done, failed, update_slot_call, update_contract_call,
}
use invoices_contracts.Contracts.Access.{Externals}
use invoices_contracts.Contracts.Sign.{SignInputs, sign_contract}
use invoices_contracts.Contracts.Commit.{sign-done, sign_refused}
use invoices_contracts.Contracts.Once.{slots-after}
use invoices_contracts.Contracts.SlotCounts.{fill-id}
use invoices_contracts.Contracts.SignConsistent.{sign_contract-IsConsistent}
use invoices_contracts.Contracts.Sound.{IsBelow, IsSound}

fill-IsBelow :
    (n : ℕ) (k : ℤ) (xs : List ContractSignatureSlot)
    → All (IsBelow n) xs
    → All (IsBelow n) (update (is_slot k) fill xs)
fill-IsBelow n k [] b = tt
fill-IsBelow n k (x ∷ xs) b =
    ((λ m e. b.0 m (sym (fill-id (pos m) k x) ∙ e)), fill-IsBelow n k xs b.1)

next_slot-after :
    (ext : Externals) (i : SignInputs) (id : Text) (request : SignContractRequest) (s t : Server)
    (r : SignContractResponse)
    → sign_contract ext i id request s ≡ (done r, t)
    → t.db.next_slot ≡ s.db.next_slot
unfolding insert_signature fill_slot update_contract_row
next_slot-after ext i id request s t r e =
    let (c, new, hash, db, pl, inserted, written, _) = sign-done ext i id request s t r e in
    ap (λ d. d.next_slot) written ∙ ground (arith, inserted)

-- What the crates and the database promise.
pub record IsFaithful (ext : Externals) : Type 0 where
  pub lawful : IsLawful ext.crypto
  pub in_order : (sigs : List ContractSignature) → ext.arrange sigs ≡ sigs

-- A signing with 32 random bytes of which neither update fails.
pub record IsCalm (i : SignInputs) : Type 0 where
  pub bytes : IsBytes i.seed
  pub long : length i.seed ≡ 32
  pub slot_updated : i.visit.faults update_slot_call ≡ false
  pub contract_updated : i.visit.faults update_contract_call ≡ false

-- A signing keeps the contract tables sound, done or failed. Neither of its two updates fails by a
-- fault of the database, the seed is 32 bytes, the cryptography is lawful, the database returns
-- rows in the order of insertion, and there are fewer than 2 ^ 31 - 1 slots.
pub sign_contract-IsSound :
    (ext : Externals) (i : SignInputs) (id : Text) (request : SignContractRequest) (s : Server)
    → IsFaithful ext
    → IsCalm i
    → length s.db.slots < 2147483647
    → IsSound ext s.db
    → IsSound ext (sign_contract ext i id request s).1.db
sign_contract-IsSound ext i id request s faithful calm small v =
    go (sign_contract ext i id request s) refl
  where
    go :
        (x : Outcome SignContractResponse × Server)
        → sign_contract ext i id request s ≡ x
        → IsSound ext x.1.db
    go (done r, t) e = record {
      consistent =
          sign_contract-IsConsistent ext i id request s t r faithful.lawful calm.bytes calm.long
            faithful.in_order small v.consistent e;
      below =
          rw (slots-after ext i id request s t r e, next_slot-after ext i id request s t r e)
            (fill-IsBelow s.db.next_slot request.slot_id s.db.slots v.below);
    }
    go (failed c, t) e =
        subst (IsSound ext)
          (sym (sign_refused ext i id request s t c calm.slot_updated calm.contract_updated e)) v
