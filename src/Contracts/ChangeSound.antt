-- ===== src/Contracts/ChangeSound.antt =====
-- src/handlers/contracts.rs: `update_contract` and `delete_contract` keep the contract tables sound.
use invoices_contracts.Base.{
  ◌≡◌, refl, sym, ap, ◌∙◌, subst, not, true, false, Bool-cases, inl, inr, List, [], ◌∷◌, Option,
  none, some, arith, Text, ◌==◌, text_eq, option_eq, option_beq_iff, eq_of_==, ==_refl, Bool, find,
  any, any-filter, filter, update, count-filter, All-filter, if◌then◌else◌,
}
use invoices_contracts.Models.{Contract, ContractPayload, ContractSignatureSlot}
use invoices_contracts.Database.{Database, is_contract, is_slot, slot_of, update_contract_row}
use invoices_contracts.Server.{Server, done, Faults, write, Handler}
use invoices_contracts.Server.Keeps.{KeepsDb, keeps_rules}
use invoices_contracts.Server.Holds.{Holds, Holds-KeepsDb, Holds-write, Holds-bind}
use invoices_contracts.Contracts.Access.{Externals}
use invoices_contracts.Contracts.Admin.{
  apply_changes, update_contract, without_contract, delete_contract,
}
use invoices_contracts.Contracts.SlotCounts.{filled_of, Distinct}
use invoices_contracts.Contracts.Consistent.{Agrees}
use invoices_contracts.Contracts.SignConsistent.{changed_if, find-update}
use invoices_contracts.Contracts.Sound.{IsSound, IsBelow, Agrees-same}

without_id : Text → List Contract → List Contract
without_id id cs = filter (λ x. not (is_contract id x)) cs

find-removed : (id : Text) (cs : List Contract) → find (is_contract id) (without_id id cs) ≡ none
unfolding without_id
find-removed id [] = refl
find-removed id (x ∷ xs) = ground (arith, find-removed id xs)

find-left :
    (id j : Text) (cs : List Contract)
    → (id == j) ≡ false
    → find (is_contract j) (without_id id cs) ≡ find (is_contract j) cs
unfolding without_id
find-left id j [] differ = refl
find-left id j (x ∷ xs) differ = ground (
  arith,
  find-left id j xs differ,
  option_beq_iff x.id (some id),
  option_beq_iff x.id (some j),
  text_eq.beq_iff id j,
)

left_contract :
    (id j : Text) (c : Contract) (cs : List Contract)
    → find (is_contract j) (without_id id cs) ≡ some c
    → (id == j) ≡ false
left_contract id j c cs h = elim (Bool-cases (id == j)) [
  | inl here ↦
      let none_left =
        ap (λ k. find (is_contract k) (without_id id cs)) (sym (eq_of_== id j here))
        ∙ find-removed id cs in
      absurd (ground arith)
  | inr there ↦ there
]

find-kept :
    (id j : Text) (c : Contract) (cs : List Contract)
    → find (is_contract j) (without_id id cs) ≡ some c
    → find (is_contract j) cs ≡ some c
find-kept id j c cs h = sym (find-left id j cs (left_contract id j c cs h)) ∙ h

filter-Distinct :
    (q : ContractSignatureSlot → Bool) (xs : List ContractSignatureSlot)
    → Distinct xs
    → Distinct (filter q xs)
filter-Distinct q [] d = d
filter-Distinct q (x ∷ xs) d = pick (q x) (filter-Distinct q xs d.1)
  where
    pick :
        (b : Bool) → Distinct (filter q xs) → Distinct (if b then x ∷ filter q xs else filter q xs)
    pick true rest = ((λ k e. any-filter (is_slot k) q xs (d.0 k e)), rest)
    pick false rest = rest

-- A slot of one contract is not one of another.
other_slot :
    (id j : Text) (x : ContractSignatureSlot)
    → (id == j) ≡ false
    → slot_of j x ≡ true
    → not (slot_of id x) ≡ true
other_slot id j x differ here =
    ground (
      arith,
      text_eq.beq_iff id j,
      text_eq.beq_iff x.contract_id j,
      text_eq.beq_iff x.contract_id id,
    )

removed-IsSound :
    (ext : Externals) (id : Text) (db : Database)
    → IsSound ext db
    → IsSound ext (without_contract ext id db)
unfolding without_contract without_id
removed-IsSound ext id db v = go ext.foreign_keys
  where
    left : ContractSignatureSlot → Bool
    left x = not (slot_of id x)

    go :
        (b : Bool)
        → IsSound ext (record db {
          contracts = without_id id db.contracts;
          slots = if b then filter left db.slots else db.slots;
        })
    go false = record {
      consistent = record {
        slot_ids = v.consistent.slot_ids;
        rows = λ j c found. v.consistent.rows j c (find-kept id j c db.contracts found);
      };
      below = v.below;
    }
    go true = record {
      consistent = record {
        slot_ids = filter-Distinct left db.slots v.consistent.slot_ids;
        rows = λ j c found.
            let differ = left_contract id j c db.contracts found in
            Agrees-same ext j c db.slots (filter left db.slots) db.signatures
              (count-filter (slot_of j) left db.slots (λ x. other_slot id j x differ))
              (count-filter (filled_of j) left db.slots
                (λ x here. other_slot id j x differ (ground (arith, here))))
              (v.consistent.rows j c (find-kept id j c db.contracts found));
      };
      below = All-filter (IsBelow db.next_slot) left db.slots v.below;
    }

-- A deletion keeps the contract tables sound.
pub delete_contract-IsSound :
    (ext : Externals) (faults : Faults) (id : Text) (s : Server)
    → IsSound ext s.db
    → IsSound ext (delete_contract ext faults id s).1.db
unfolding delete_contract
delete_contract-IsSound ext faults id s v = ground (arith, v, removed-IsSound ext id s.db v)

-- What a change of a contract repeats: the content, the status, the counts and the final hash.
pub record IsCosmetic (p : ContractPayload) (c : Contract) : Type 0 where
  pub content : p.content ≡ c.content
  pub status : p.status ≡ c.status
  pub required : p.required_signatures ≡ c.required_signatures
  pub completed : p.completed_signatures ≡ c.completed_signatures
  pub final_hash : p.final_hash ≡ none

changed_if-inv :
    (p : ContractPayload) (b : Bool) (o : Option Contract) (c : Contract)
    → changed_if b (apply_changes p) o ≡ some c
    → b ≡ true
    → (old : Contract) × (o ≡ some old) × (apply_changes p old ≡ c)
changed_if-inv p b none c now here = absurd (ground arith)
changed_if-inv p b (some old) c now here = (old, refl, ground arith)

module _ (ext : Externals) (id : Text) (p : ContractPayload) (db : Database)
    (cosmetic : (c : Contract) → find (is_contract id) db.contracts ≡ some c → IsCosmetic p c)
    (v : IsSound ext db) where
  changed-Agrees :
      (c : Contract)
      → IsCosmetic p c
      → Agrees ext db.slots db.signatures id c
      → Agrees ext db.slots db.signatures id (apply_changes p c)
  unfolding apply_changes
  changed-Agrees c same a = record {
    completed = same.completed ∙ a.completed;
    counted = a.counted;
    required = same.required ∙ a.required;
    status = same.status ∙ a.status;
    final_hash = rw (same.final_hash, same.content) a.final_hash;
    genuine = rw same.content a.genuine;
  }

  changed-rows :
      (j : Text) (c : Contract)
      → find (is_contract j) (update (is_contract id) (apply_changes p) db.contracts) ≡ some c
      → Agrees ext db.slots db.signatures j c
  unfolding apply_changes
  changed-rows j c found =
      let now = sym (find-update id j (apply_changes p) db.contracts (λ x. refl)) ∙ found in
      elim (Bool-cases (id == j)) [
        | inl here ↦
            let same : id ≡ j = eq_of_== id j here in
            let (old, there, is_new) =
              changed_if-inv p _ (find (is_contract j) db.contracts) c now here in
            let old_found = ap (λ k. find (is_contract k) db.contracts) same ∙ there in
            subst (λ k. Agrees ext db.slots db.signatures k c) same
              (subst (Agrees ext db.slots db.signatures id) is_new
                (changed-Agrees old (cosmetic old old_found) (v.consistent.rows id old old_found)))
        | inr there ↦ v.consistent.rows j c (ground (arith, now, there))
      ]

  changed-IsSound : IsSound ext (update_contract_row id (apply_changes p) db)
  unfolding update_contract_row
  changed-IsSound = record {
    consistent = record { slot_ids = v.consistent.slot_ids; rows = changed-rows };
    below = v.below;
  }

  -- The change still repeats what the tables show.
  still-IsCosmetic :
      (c : Contract)
      → find (is_contract id) (update (is_contract id) (apply_changes p) db.contracts) ≡ some c
      → IsCosmetic p c
  unfolding apply_changes
  still-IsCosmetic c found =
      let now = sym (find-update id id (apply_changes p) db.contracts (λ x. refl)) ∙ found in
      let (old, there, is_new) =
        changed_if-inv p _ (find (is_contract id) db.contracts) c now (==_refl id) in
      subst (IsCosmetic p) is_new (record {
        content = refl;
        status = refl;
        required = refl;
        completed = refl;
        final_hash = (cosmetic old there).final_hash;
      })

-- The tables are sound, and a change repeats what they show of its contract.
record IsReady (ext : Externals) (id : Text) (p : ContractPayload) (db : Database) : Type 0 where
  sound : IsSound ext db
  cosmetic : (c : Contract) → find (is_contract id) db.contracts ≡ some c → IsCosmetic p c

module _ (ext : Externals) (id : Text) (p : ContractPayload) where
  update_row-IsReady :
      (fault : Bool)
      → Holds (IsReady ext id p) (write fault (update_contract_row id (apply_changes p)))
  unfolding update_contract_row
  update_row-IsReady fault = Holds-write (IsReady ext id p) fault _ (λ db ready. record {
    sound = changed-IsSound ext id p db ready.cosmetic ready.sound;
    cosmetic = still-IsCosmetic ext id p db ready.cosmetic ready.sound;
  })

  reads-IsReady : {A : Type 0} (m : Handler A) → KeepsDb m → Holds (IsReady ext id p) m
  reads-IsReady m k = Holds-KeepsDb (IsReady ext id p) m k

  matched-KeepsDb : KeepsDb (λ (s : Server). (done (any (is_contract id) s.db.contracts), s))
  matched-KeepsDb = record { same = λ s. refl }

  update_contract-Holds : (faults : Faults) → Holds (IsReady ext id p) (update_contract faults id p)
  unfolding update_contract
  update_contract-Holds faults =
      search (Holds-bind, reads-IsReady, update_row-IsReady, keeps_rules, matched-KeepsDb) depth 16

  -- A change that repeats the content, the status and the counts of its contract, and names no
  -- final hash, keeps the contract tables sound.
  pub update_contract-IsSound :
      (faults : Faults) (s : Server)
      → ((c : Contract) → find (is_contract id) s.db.contracts ≡ some c → IsCosmetic p c)
      → IsSound ext s.db
      → IsSound ext (update_contract faults id p s).1.db
  update_contract-IsSound faults s cosmetic v =
      ((update_contract-Holds faults).held s (record { sound = v; cosmetic = cosmetic })).sound
