-- ===== src/Contracts/CoveredMoves.antt =====
-- src/handlers/contracts.rs: what every read and every write of a signing keeps.
use invoices_contracts.Base.{
  ◌≡◌, refl, sym, ap, ◌∙◌, subst, Bool, true, false, inl, inr, ◌⊎◌, [], ◌∷◌, Option, none, some,
  arith, Text, nat_eq, ◌==◌, text_eq, option_eq, eq_of_==, text_beq, find, count, count-append,
  update, if◌then◌else◌,
}
use invoices_contracts.Base.Int.{pos, succ_i32, leb_ℤ}
use invoices_contracts.Models.{Contract, CreateContractSignature}
use invoices_contracts.Database.{
  Database, is_contract, signature_of, signature_row, insert_signature, fill_slot,
  update_contract_row,
}
use invoices_contracts.Server.{Server, StatusCode, done, failed, write}
use invoices_contracts.Server.Keeps.{db_after}
use invoices_contracts.Contracts.Access.{Externals, pending, signed}
use invoices_contracts.Contracts.Sign.{is_last, insert_new, prepare}
use invoices_contracts.Contracts.SignKeeps.{prepare-KeepsDb}
use invoices_contracts.Contracts.SignEffect.{prepare-Reads}
use invoices_contracts.Contracts.Commit.{counted, insert_new-done, write-done}
use invoices_contracts.Contracts.Overlap.{inserted-count}
use invoices_contracts.Contracts.SignConsistent.{changed_if, find-update, inserted-eq}
use invoices_contracts.Contracts.Interleaved.{
  Signing, Pc, answered, planned, inserted, filled, Move, reads, refuses, inserts, insert_fails,
  fills, fill_fails, counts, count_fails,
}
use invoices_contracts.Contracts.Covered.{
  stored, IsCovered, Knows, IsGrown, leb_ℤ-more, succ_i32-covered, leb_ℤ-trans, IsSteady-grown,
}

-- What a move has to keep: signatures grow, and both the tables and the request stay covered.
pub record IsKept (db after : Database) (q : Pc) : Type 0 where
  pub grown : IsGrown db after
  pub covered : IsCovered after
  pub knows : Knows after q

still : (db : Database) → IsGrown db db
still db = record { more = λ id. omega arith; same_required = λ id c found. (c, found, refl) }

-- A move that leaves the tables as they are.
idle-IsKept :
    (db after : Database) (q : Pc) → after ≡ db → IsCovered db → Knows db q → IsKept db after q
idle-IsKept db after q same v k =
    subst (λ d. IsKept db d q) (sym same) (record { grown = still db; covered = v; knows = k })

pub insert_new-failed :
    (ext : Externals) (new : CreateContractSignature) (x : Signing) (e : StatusCode) (s t : Server)
    → insert_new ext x.inputs.visit.faults new s ≡ (failed e, t)
    → t ≡ s
unfolding insert_new
insert_new-failed ext new x e s t h = ground arith

pub write-failed :
    (fault : Bool) (f : Database → Database) (e : StatusCode) (s t : Server)
    → write fault f s ≡ (failed e, t)
    → t ≡ s
unfolding write
write-failed true f e s t h = ground arith
write-failed false f e s t h = absurd (ground arith)

module _ (ext : Externals) (x : Signing) (db : Database) (v : IsCovered db) where
  read-IsKept :
      (s t : Server)
      → s.db ≡ db
      → prepare ext x.inputs x.id x.request s ≡ (done (x.contract, x.new, x.hash), t)
      → Knows db (planned x)
  read-IsKept s t same e =
      let pl = ((prepare-Reads ext x.inputs x.id x.request db).at s t _ same e).1 in
      (
        pl.new_contract,
        v.completed x.id x.contract pl.contract_found,
        record { steady = λ c found. ground (arith, pl.contract_found) },
      )

  insert-IsKept :
      (after : Database)
      → Knows db (planned x)
      → insert_signature x.new db ≡ some after
      → IsKept db after (inserted x)
  insert-IsKept after k e =
      let row = signature_row db.next_signature x.new in
      let is_after = inserted-eq x.new db after e in
      let (one_more, same) = inserted-count x.id x.new db after k.0 e in
      let grown : IsGrown db after = record {
        more = λ id. ground (
          arith,
          ap (λ d. count (signature_of id) d.signatures) is_after,
          count-append (signature_of id) db.signatures (row ∷ []),
        );
        same_required = λ id c found. (c, ap (find (is_contract id)) (sym same) ∙ found, refl);
      } in
      record {
        grown = grown;
        covered = record {
          completed = λ id c found.
              leb_ℤ-more c.completed_signatures _ _
                (v.completed id c (ap (find (is_contract id)) (sym same) ∙ found)) (grown.more id);
          required = λ id c found is_signed.
              leb_ℤ-more c.required_signatures _ _
                (v.required id c (ap (find (is_contract id)) (sym same) ∙ found) is_signed)
                (grown.more id);
        };
        knows = (
          subst (λ n. leb_ℤ (succ_i32 x.contract.completed_signatures) (pos n) ≡ true)
              (sym one_more) (succ_i32-covered x.contract.completed_signatures _ k.1),
          IsSteady-grown db after x grown k.2,
        );
      }

  fill-IsKept : Knows db (inserted x) → IsKept db (fill_slot x.request.slot_id db) (filled x)
  unfolding fill_slot
  fill-IsKept k = record {
    grown = record { more = λ id. omega arith; same_required = λ id c found. (c, found, refl) };
    covered = record { completed = v.completed; required = v.required };
    knows = (k.0, record { steady = k.1.steady });
  }

  -- A contract after the count of this signing: another one, or this one with the new count.
  count-cases :
      (j : Text) (c : Contract)
      → find
          (is_contract j)
          (update (is_contract x.id) (counted ext x.contract x.hash) db.contracts)
        ≡ some c
      → (old : Contract) × (find (is_contract j) db.contracts ≡ some old)
        × ((c ≡ old) ⊎ ((x.id ≡ j) × (c ≡ counted ext x.contract x.hash old)))
  count-cases j c found =
      go (x.id == j) (find (is_contract j) db.contracts) refl
        (sym (find-update x.id j (counted ext x.contract x.hash) db.contracts (λ d. refl)) ∙ found)
    where
      go :
          (b : Bool) (o : Option Contract)
          → (x.id == j) ≡ b
          → changed_if b (counted ext x.contract x.hash) o ≡ some c
          → (old : Contract) × (o ≡ some old)
            × ((c ≡ old) ⊎ ((x.id ≡ j) × (c ≡ counted ext x.contract x.hash old)))
      go b none e h = absurd (ground arith)
      go true (some old) e h = (old, refl, inr (eq_of_== x.id j e, ground arith))
      go false (some old) e h = (old, refl, inl (ground arith))

  counted-required :
      (old : Contract)
      → Knows db (filled x)
      → find (is_contract x.id) db.contracts ≡ some old
      → ((if is_last ext x.contract then signed else pending) == signed) ≡ true
      → leb_ℤ old.required_signatures (stored x.id db) ≡ true
  unfolding text_beq
  counted-required old k there is_signed =
      let last : is_last ext x.contract ≡ true = ground (arith, is_signed) in
      subst (λ r. leb_ℤ r (stored x.id db) ≡ true) (sym (k.1.steady old there))
        (leb_ℤ-trans x.contract.required_signatures (succ_i32 x.contract.completed_signatures)
          (stored x.id db) last k.0)

  count-IsKept :
      Knows db (filled x)
      → IsKept db (update_contract_row x.id (counted ext x.contract x.hash) db) answered
  unfolding update_contract_row
  count-IsKept k = record {
    grown = record {
      more = λ id. omega arith;
      same_required = λ j c found.
          let (old, there, which) = count-cases j c found in
          (
            old,
            there,
            elim which [
              | inl same ↦ ap (λ d. d.required_signatures) same
              | inr (_, new) ↦ ap (λ d. d.required_signatures) new
            ],
          );
    };
    covered = record {
      completed = λ j c found.
          let (old, there, which) = count-cases j c found in
          elim which [
            | inl same ↦
                subst (λ d. leb_ℤ d.completed_signatures (stored j db) ≡ true) (sym same)
                  (v.completed j old there)
            | inr (here, new) ↦
                subst (λ d. leb_ℤ d.completed_signatures (stored j db) ≡ true) (sym new)
                  (subst
                    (λ i. leb_ℤ (succ_i32 x.contract.completed_signatures) (stored i db) ≡ true)
                    here k.0)
          ];
      required = λ j c found is_signed.
          let (old, there, which) = count-cases j c found in
          elim which [
            | inl same ↦
                subst (λ d. leb_ℤ d.required_signatures (stored j db) ≡ true) (sym same)
                  (v.required j old there (ap (λ d. d.status == signed) (sym same) ∙ is_signed))
            | inr (here, new) ↦
                subst (λ d. leb_ℤ d.required_signatures (stored j db) ≡ true) (sym new)
                  (subst (λ i. leb_ℤ old.required_signatures (stored i db) ≡ true) here
                    (counted-required old k
                      (ap (λ i. find (is_contract i) db.contracts) here ∙ there)
                      (ap (λ d. d.status == signed) (sym new) ∙ is_signed)))
          ];
    };
    knows = tt;
  }

module _ (ext : Externals) where
  pub Move-IsKept :
      (s t : Server) (p q : Pc)
      → Move ext s p t q
      → IsCovered s.db
      → Knows s.db p
      → IsKept s.db t.db q
  Move-IsKept s t _ _ (reads x e) v k =
      idle-IsKept s.db t.db (planned x)
        (db_after _ s t _ (prepare-KeepsDb ext x.inputs x.id x.request) e) v
        (read-IsKept ext x s.db v s t refl e)
  Move-IsKept s t _ _ (refuses i id request c e) v k =
      idle-IsKept s.db t.db answered (db_after _ s t _ (prepare-KeepsDb ext i id request) e) v tt
  Move-IsKept s t _ _ (inserts x e) v k =
      insert-IsKept ext x s.db v t.db k (insert_new-done ext _ x.new s t tt e)
  Move-IsKept s t _ _ (insert_fails x c e) v k =
      idle-IsKept s.db t.db answered (ap (λ w. w.db) (insert_new-failed ext x.new x c s t e)) v tt
  Move-IsKept s t _ _ (fills x e) v k =
      subst (λ d. IsKept s.db d (filled x)) (sym (write-done ext _ _ s t tt e))
        (fill-IsKept ext x s.db v k)
  Move-IsKept s t _ _ (fill_fails x c e) v k =
      idle-IsKept s.db t.db answered (ap (λ w. w.db) (write-failed _ _ c s t e)) v tt
  Move-IsKept s t _ _ (counts x e) v k =
      subst (λ d. IsKept s.db d answered) (sym (write-done ext _ _ s t tt e))
        (count-IsKept ext x s.db v k)
  Move-IsKept s t _ _ (count_fails x c e) v k =
      idle-IsKept s.db t.db answered (ap (λ w. w.db) (write-failed _ _ c s t e)) v tt
