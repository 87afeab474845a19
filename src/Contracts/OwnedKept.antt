-- ===== src/Contracts/OwnedKept.antt =====
-- src/handlers/contracts.rs, with foreign keys enforced: every handler keeps each slot and each
-- signature with a stored contract.
use invoices_contracts.Base.{
  ◌≡◌, refl, sym, ap, ◌∙◌, subst, Bool, true, false, Bool-cases, inl, inr, ◌||◌, not, List, [], ◌∷◌,
  ◌++◌, Option, some, arith, Text, text_eq, option_eq, option_beq_iff, ◌==◌, eq_of_==, any,
  any-append, any-filter, filter,
}
use invoices_contracts.Models.{
  Contract, ContractPayload, CreateContractSignature, SignContractRequest, SignContractResponse,
  CreateContractRequest,
}
use invoices_contracts.RateLimit.{Time}
use invoices_contracts.Database.{
  Database, is_contract, slot_of, signature_of, contract_row, update_contract_row,
}
use invoices_contracts.Server.{
  Server, Outcome, done, failed, Faults, Handler, query, pure, ◌>>=◌, write, acquire, >>=-done,
}
use invoices_contracts.Server.Keeps.{KeepsDb, db_after, keeps_rules, query-done}
use invoices_contracts.Server.Holds.{Holds, Holds-KeepsDb, Holds-write, Holds-bind}
use invoices_contracts.Contracts.Access.{Externals}
use invoices_contracts.Contracts.Admin.{
  apply_changes, without_contract, create_contract, delete_contract, update_contract,
}
use invoices_contracts.Contracts.Sign.{SignInputs, commit, prepare, response, sign_contract}
use invoices_contracts.Contracts.SignKeeps.{prepare-KeepsDb}
use invoices_contracts.Contracts.SignEffect.{prepare-Reads}
use invoices_contracts.Contracts.Create.{
  create_transaction-done, create_contract-failed, check_request-done, find-new,
}
use invoices_contracts.Contracts.Owned.{
  IsOwned, IsOwnedWith, any-found, commit-Holds, insert_slots-IsOwnedWith, update_row-IsOwned,
}

-- A signing that reads leaves the tables, and one that writes does so for the contract it has read.
pub sign_contract-IsOwned :
    (ext : Externals) (i : SignInputs) (id : Text) (request : SignContractRequest) (s : Server)
    → IsOwned s.db
    → IsOwned (sign_contract ext i id request s).1.db
unfolding sign_contract ◌>>=◌
sign_contract-IsOwned ext i id request s p = go (prepare ext i id request s) refl
  where
    go :
        (x : Outcome (Contract × CreateContractSignature × Option Text) × Server)
        → prepare ext i id request s ≡ x
        → IsOwned
            (elim (x.0) as (λ o. Outcome SignContractResponse × Server) [
              | done plan ↦
                  (commit ext i.visit.faults id request.slot_id plan.0 plan.1 plan.2 >>= λ _.
                  pure (response ext plan.0 plan.1))
                    (x.1)
              | failed c ↦ (failed c, x.1)
            ]).1.db
    go (failed c, t) e =
        subst IsOwned (sym (db_after _ s t (failed c) (prepare-KeepsDb ext i id request) e)) p
    go (done (c, new, hash), t) e =
        let (same, pl) = (prepare-Reads ext i id request s.db).at s t (c, new, hash) refl e in
        ((commit-Holds ext new i.visit.faults id request.slot_id c hash (response ext c new)).held t
          (subst (IsOwnedWith new.contract_id) (sym same) (record {
            owned = p;
            present =
                ap (λ k. any (is_contract k) s.db.contracts) pl.new_contract
                ∙ any-found (is_contract id) s.db.contracts c pl.contract_found;
          }))).owned

created-IsOwnedWith :
    (id : Text) (p : ContractPayload) (db : Database)
    → any (is_contract id) db.contracts ≡ false
    → p.id ≡ some id
    → IsOwned db
    → IsOwnedWith id (record db { contracts = db.contracts ++ contract_row p ∷ [] })
created-IsOwnedWith id p db fresh named o = record {
  owned = record {
    slots = λ j h.
        any-append (is_contract j) db.contracts (contract_row p ∷ [])
        ∙ ap (λ b. b || any (is_contract j) (contract_row p ∷ [])) (o.slots j h);
    signatures = λ j h.
        any-append (is_contract j) db.contracts (contract_row p ∷ [])
        ∙ ap (λ b. b || any (is_contract j) (contract_row p ∷ [])) (o.signatures j h);
  };
  present =
      any-found (is_contract id) (db.contracts ++ contract_row p ∷ []) (contract_row p)
        (find-new id (contract_row p) db.contracts fresh named);
}

module _ (ext : Externals) where
  created-IsOwned :
      (faults : Faults) (uuid : Text) (now : Time) (r : CreateContractRequest) (s t : Server)
      (c : Contract)
      → IsOwned s.db
      → create_contract ext faults uuid now r s ≡ (done c, t)
      → IsOwned t.db
  unfolding create_contract
  created-IsOwned faults uuid now r s t c o h =
      let (_, s₁, first, rest) = >>=-done _ _ s t c h in
      let (_, s₂, second, last) = >>=-done (query (faults acquire) (λ db. tt)) _ s₁ t c rest in
      let (kept, some_slots) = check_request-done r s s₁ _ first in
      let same : s₂.db ≡ s.db = ap (λ w. w.db) ((query-done _ _ s₁ s₂ _ second).1 ∙ kept) in
      let (unused, is_row, after) =
        create_transaction-done faults uuid _ r.signature_slots s₂ t c refl last in
      subst IsOwned (sym after)
        (insert_slots-IsOwnedWith uuid r.signature_slots _
          (created-IsOwnedWith uuid _ s₂.db unused refl (subst IsOwned (sym same) o))).owned

  pub create_contract-IsOwned :
      (faults : Faults) (uuid : Text) (now : Time) (r : CreateContractRequest) (s : Server)
      → IsOwned s.db
      → IsOwned (create_contract ext faults uuid now r s).1.db
  create_contract-IsOwned faults uuid now r s o = go (create_contract ext faults uuid now r s) refl
    where
      go :
          (x : Outcome Contract × Server)
          → create_contract ext faults uuid now r s ≡ x
          → IsOwned x.1.db
      go (done c, t) e = created-IsOwned faults uuid now r s t c o e
      go (failed c, t) e =
          subst IsOwned (sym (create_contract-failed ext faults uuid now r s t c e)) o

any-filter-kept :
    {A : Type 0} (p q : A → Bool) (xs : List A) → any p (filter q xs) ≡ true → any p xs ≡ true
any-filter-kept p q xs h = elim (Bool-cases (any p xs)) [
  | inl there ↦ there
  | inr none_there ↦ absurd (ground (arith, any-filter p q xs none_there))
]

any-filtered_out :
    {A : Type 0} (p : A → Bool) (xs : List A) → any p (filter (λ x. not (p x)) xs) ≡ false
any-filtered_out p [] = refl
any-filtered_out p (x ∷ xs) = ground (arith, any-filtered_out p xs)

-- Another contract stays.
any-left :
    (id j : Text) (cs : List Contract)
    → (id == j) ≡ false
    → any (is_contract j) (filter (λ c. not (is_contract id c)) cs) ≡ any (is_contract j) cs
any-left id j [] differ = refl
any-left id j (x ∷ xs) differ = ground (
  arith,
  any-left id j xs differ,
  option_beq_iff x.id (some id),
  option_beq_iff x.id (some j),
  text_eq.beq_iff id j,
)

module _ (ext : Externals) (id : Text) (db : Database) (o : IsOwned db) where
  removed-IsOwned :
      ext.foreign_keys ≡ true
      → any (signature_of id) db.signatures ≡ false
      → IsOwned (without_contract ext id db)
  unfolding without_contract
  removed-IsOwned enforced unsigned = rw enforced (record {
    slots = λ j h. elim (Bool-cases (id == j)) [
      | inl here ↦
          let gone =
            ap (λ k. any (slot_of k) (filter (λ x. not (slot_of id x)) db.slots))
              (sym (eq_of_== id j here))
            ∙ any-filtered_out (slot_of id) db.slots in
          absurd (ground arith)
      | inr differ ↦
          any-left id j db.contracts differ
          ∙ o.slots j (any-filter-kept (slot_of j) (λ x. not (slot_of id x)) db.slots h)
    ];
    signatures = λ j h. elim (Bool-cases (id == j)) [
      | inl here ↦
          let none_there =
            ap (λ k. any (signature_of k) db.signatures) (sym (eq_of_== id j here)) ∙ unsigned in
          absurd (ground arith)
      | inr differ ↦ any-left id j db.contracts differ ∙ o.signatures j h
    ];
  })

pub delete_contract-IsOwned :
    (ext : Externals) (faults : Faults) (id : Text) (s : Server)
    → ext.foreign_keys ≡ true
    → IsOwned s.db
    → IsOwned (delete_contract ext faults id s).1.db
unfolding delete_contract
delete_contract-IsOwned ext faults id s enforced o =
    ground (arith, o, enforced, removed-IsOwned ext id s.db o enforced)

module _ (id : Text) (p : ContractPayload) where
  update_row-Holds :
      (fault : Bool) → Holds IsOwned (write fault (update_contract_row id (apply_changes p)))
  unfolding apply_changes
  update_row-Holds fault =
      Holds-write IsOwned fault _ (λ db o. update_row-IsOwned id (apply_changes p) db (λ c. refl) o)

  reads_hold : {A : Type 0} (m : Handler A) → KeepsDb m → Holds IsOwned m
  reads_hold m k = Holds-KeepsDb IsOwned m k

  matched-KeepsDb : KeepsDb (λ (s : Server). (done (any (is_contract id) s.db.contracts), s))
  matched-KeepsDb = record { same = λ s. refl }

  pub update_contract-IsOwned : (faults : Faults) → Holds IsOwned (update_contract faults id p)
  unfolding update_contract
  update_contract-IsOwned faults =
      search (Holds-bind, reads_hold, update_row-Holds, keeps_rules, matched-KeepsDb) depth 16
