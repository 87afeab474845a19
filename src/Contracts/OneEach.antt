-- ===== src/Contracts/OneEach.antt =====
-- src/handlers/contracts.rs: however signings interleave, a slot has one signature at most, and a
-- verification code names one at most.
use invoices_contracts.Base.{
  ◌≤◌, ◌≡◌, sym, ap, ◌∙◌, subst, Bool, true, false, Bool-cases, inl, inr, List, [], ◌∷◌, some, ◌||◌,
  arith, Text, ◌==◌, text_eq, option_eq, eq_of_==, ==_refl, any, count, count-append,
}
use invoices_contracts.Base.Int.{ℤ, int_eq}
use invoices_contracts.Models.{ContractSignature, CreateContractSignature}
use invoices_contracts.Database.{
  Database, same_slot, clashes, signature_row, insert_signature, fill_slot, update_contract_row,
}
use invoices_contracts.Server.{Server}
use invoices_contracts.Server.Keeps.{db_after}
use invoices_contracts.Contracts.Access.{Externals}
use invoices_contracts.Contracts.SignKeeps.{prepare-KeepsDb}
use invoices_contracts.Contracts.Commit.{insert_new-done, write-done}
use invoices_contracts.Contracts.SignConsistent.{inserted-eq}
use invoices_contracts.Contracts.CoveredMoves.{insert_new-failed, write-failed}
use invoices_contracts.Contracts.Interleaved.{
  Pc, Move, reads, refuses, inserts, insert_fails, fills, fill_fails, counts, count_fails, System,
  Turn, turn, Schedule, begin, next,
}

abbrev pub has_code : Text → ContractSignature → Bool
has_code code s = s.verification_code == code

-- Neither a slot nor a verification code has two signatures.
pub record IsOneEach (signatures : List ContractSignature) : Type 0 where
  pub of_slot : (k : ℤ) → count (same_slot (some k)) signatures ≤ 1
  pub of_code : (code : Text) → count (has_code code) signatures ≤ 1

-- What clashes with a new signature is not there.
count-free :
    (p q : ContractSignature → Bool) (xs : List ContractSignature)
    → ((s : ContractSignature) → p s ≡ true → q s ≡ true)
    → any q xs ≡ false
    → count p xs ≡ 0
count-free p q [] sub free = ground arith
count-free p q (x ∷ xs) sub free = elim (Bool-cases (p x)) [
  | inl here ↦ absurd (ground (arith, sub x here))
  | inr other ↦ ground (arith, count-free p q xs sub)
]

slot-clashes :
    (k : ℤ) (new : CreateContractSignature) (s : ContractSignature)
    → new.slot_id ≡ some k
    → same_slot (some k) s ≡ true
    → clashes new s ≡ true
slot-clashes k new s mine here =
    ap (λ o. (s.verification_code == new.verification_code) || same_slot o s) mine
    ∙ ground (arith, here)

code-clashes :
    (new : CreateContractSignature) (s : ContractSignature)
    → s.verification_code ≡ new.verification_code
    → clashes new s ≡ true
code-clashes new s same =
    ap (λ v. (v == new.verification_code) || same_slot new.slot_id s) same
    ∙ ap (λ b. b || same_slot new.slot_id s) (==_refl new.verification_code)

module _ (new : CreateContractSignature) (db after : Database)
    (e : insert_signature new db ≡ some after) where
  pub no_clash : any (clashes new) db.signatures ≡ false
  unfolding insert_signature
  no_clash = elim (Bool-cases (any (clashes new) db.signatures)) [
    | inl clash ↦ absurd (ground arith)
    | inr free ↦ free
  ]

  one_more :
      (p : ContractSignature → Bool)
      → ((s : ContractSignature)
          → p (signature_row db.next_signature new) ≡ true
          → p s ≡ true
          → clashes new s ≡ true)
      → count p db.signatures ≤ 1
      → count p after.signatures ≤ 1
  one_more p sub h =
      let row = signature_row db.next_signature new in
      let grown =
        ap (λ d. count p d.signatures) (inserted-eq new db after e)
        ∙ count-append p db.signatures (row ∷ []) in
      elim (Bool-cases (p row)) [
        | inl mine ↦
            ground
              (arith, grown, count-free p (clashes new) db.signatures (λ s. sub s mine) no_clash)
        | inr other ↦ ground (arith, grown)
      ]

  insert-IsOneEach : IsOneEach db.signatures → IsOneEach after.signatures
  insert-IsOneEach one = record {
    of_slot = λ k.
        one_more (same_slot (some k))
          (λ s mine here. slot-clashes k new s (eq_of_== new.slot_id (some k) mine) here)
          (one.of_slot k);
    of_code = λ code.
        one_more (has_code code)
          (λ s mine here. code-clashes new s (
            eq_of_== s.verification_code code here
            ∙ sym (eq_of_== new.verification_code code mine)))
          (one.of_code code);
  }

module _ (ext : Externals) where
  kept-IsOneEach :
      (db after : Database)
      → after.signatures ≡ db.signatures
      → IsOneEach db.signatures
      → IsOneEach after.signatures
  kept-IsOneEach db after same = subst IsOneEach (sym same)

  Move-IsOneEach :
      (s t : Server) (p q : Pc)
      → Move ext s p t q
      → IsOneEach s.db.signatures
      → IsOneEach t.db.signatures
  unfolding fill_slot update_contract_row
  Move-IsOneEach s t _ _ (reads x e) =
      kept-IsOneEach s.db t.db
        (ap (λ d. d.signatures) (db_after _ s t _ (prepare-KeepsDb ext x.inputs x.id x.request) e))
  Move-IsOneEach s t _ _ (refuses i id request c e) =
      kept-IsOneEach s.db t.db
        (ap (λ d. d.signatures) (db_after _ s t _ (prepare-KeepsDb ext i id request) e))
  Move-IsOneEach s t _ _ (inserts x e) =
      insert-IsOneEach x.new s.db t.db (insert_new-done ext _ x.new s t tt e)
  Move-IsOneEach s t _ _ (insert_fails x c e) =
      kept-IsOneEach s.db t.db (ap (λ w. w.db.signatures) (insert_new-failed ext x.new x c s t e))
  Move-IsOneEach s t _ _ (fills x e) =
      kept-IsOneEach s.db t.db (ap (λ d. d.signatures) (write-done ext _ _ s t tt e))
  Move-IsOneEach s t _ _ (fill_fails x c e) =
      kept-IsOneEach s.db t.db (ap (λ w. w.db.signatures) (write-failed _ _ c s t e))
  Move-IsOneEach s t _ _ (counts x e) =
      kept-IsOneEach s.db t.db (ap (λ d. d.signatures) (write-done ext _ _ s t tt e))
  Move-IsOneEach s t _ _ (count_fails x c e) =
      kept-IsOneEach s.db t.db (ap (λ w. w.db.signatures) (write-failed _ _ c s t e))

  Turn-IsOneEach :
      (s t : System)
      → Turn ext s t
      → IsOneEach s.server.db.signatures
      → IsOneEach t.server.db.signatures
  Turn-IsOneEach s _ (turn n {t} {p} move) = Move-IsOneEach s.server t (s.pc n) p move

  -- Where any number of signings start on tables in which no slot and no verification code has two
  -- signatures, and take their turns in any order, with any faults, no slot and no verification
  -- code ever has two.
  pub Schedule-IsOneEach :
      (start s : System)
      → Schedule ext start s
      → IsOneEach start.server.db.signatures
      → IsOneEach s.server.db.signatures
  Schedule-IsOneEach start s begin one = one
  Schedule-IsOneEach start s (next before step) one =
      Turn-IsOneEach _ s step (Schedule-IsOneEach start _ before one)
