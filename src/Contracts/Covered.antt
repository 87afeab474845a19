-- ===== src/Contracts/Covered.antt =====
-- src/handlers/contracts.rs: however signings interleave, a contract that is marked as signed has as
-- many signatures as it requires.
use invoices_contracts.Base.{
  ℕ, suc, ◌≤◌, ◌≡◌, ◌∙◌, true, some, arith, Text, nat_eq, ◌==◌, text_eq, option_eq, find, count,
}
use invoices_contracts.Base.Int.{ℤ, pos, succ_i32, leb_ℤ}
use invoices_contracts.Models.{Contract}
use invoices_contracts.Database.{Database, is_contract, signature_of}
use invoices_contracts.Contracts.Access.{signed}
use invoices_contracts.Contracts.Interleaved.{
  Signing, Pc, unread, answered, planned, inserted, filled,
}

abbrev pub stored : Text → Database → ℤ
stored id db = pos (count (signature_of id) db.signatures)

-- No contract counts more signatures than are stored, and a signed one has all that it requires.
pub record IsCovered (db : Database) : Type 0 where
  pub completed :
      (id : Text) (c : Contract)
      → find (is_contract id) db.contracts ≡ some c
      → leb_ℤ c.completed_signatures (stored id db) ≡ true
  pub required :
      (id : Text) (c : Contract)
      → find (is_contract id) db.contracts ≡ some c
      → (c.status == signed) ≡ true
      → leb_ℤ c.required_signatures (stored id db) ≡ true

-- The number of signatures that a contract requires is the one that was read.
pub record IsSteady (db : Database) (x : Signing) : Type 0 where
  pub steady :
      (c : Contract)
      → find (is_contract x.id) db.contracts ≡ some c
      → c.required_signatures ≡ x.contract.required_signatures

-- What a request that stands behind its reads still knows.
abbrev pub Knows : Database → Pc → Type 0
Knows db unread = Unit {0}
Knows db answered = Unit {0}
Knows db (planned x) =
    (x.new.contract_id ≡ x.id)
    × (leb_ℤ x.contract.completed_signatures (stored x.id db) ≡ true)
    × IsSteady db x
Knows db (inserted x) =
    (leb_ℤ (succ_i32 x.contract.completed_signatures) (stored x.id db) ≡ true) × IsSteady db x
Knows db (filled x) =
    (leb_ℤ (succ_i32 x.contract.completed_signatures) (stored x.id db) ≡ true) × IsSteady db x

-- Signatures are only added, and no contract requires another number of them.
pub record IsGrown (db after : Database) : Type 0 where
  pub more :
      (id : Text) → count (signature_of id) db.signatures ≤ count (signature_of id) after.signatures
  pub same_required :
      (id : Text) (c : Contract)
      → find (is_contract id) after.contracts ≡ some c
      → (old : Contract) × (find (is_contract id) db.contracts ≡ some old)
        × (c.required_signatures ≡ old.required_signatures)

pub leb_ℤ-more : (x : ℤ) (m n : ℕ) → leb_ℤ x (pos m) ≡ true → m ≤ n → leb_ℤ x (pos n) ≡ true
leb_ℤ-more x m n h k = ground arith

pub succ_i32-covered :
    (x : ℤ) (n : ℕ) → leb_ℤ x (pos n) ≡ true → leb_ℤ (succ_i32 x) (pos (suc n)) ≡ true
succ_i32-covered x n h = ground arith

pub leb_ℤ-trans : (x y z : ℤ) → leb_ℤ x y ≡ true → leb_ℤ y z ≡ true → leb_ℤ x z ≡ true
leb_ℤ-trans x y z h k = ground arith

pub IsSteady-grown :
    (db after : Database) (x : Signing) → IsGrown db after → IsSteady db x → IsSteady after x
IsSteady-grown db after x g s = record {
  steady =
      λ c found. let (old, there, same) = g.same_required x.id c found in same ∙ s.steady old there;
}

pub Knows-grown : (db after : Database) (p : Pc) → IsGrown db after → Knows db p → Knows after p
Knows-grown db after unread g k = tt
Knows-grown db after answered g k = tt
Knows-grown db after (planned x) g k = (
  k.0,
  leb_ℤ-more x.contract.completed_signatures _ _ k.1 (g.more x.id),
  IsSteady-grown db after x g k.2,
)
Knows-grown db after (inserted x) g k = (
  leb_ℤ-more (succ_i32 x.contract.completed_signatures) _ _ k.0 (g.more x.id),
  IsSteady-grown db after x g k.1,
)
Knows-grown db after (filled x) g k = (
  leb_ℤ-more (succ_i32 x.contract.completed_signatures) _ _ k.0 (g.more x.id),
  IsSteady-grown db after x g k.1,
)
