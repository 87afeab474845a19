-- ===== src/RateLimit/Table.antt =====
-- The map from client addresses, an association list, and its laws.
use invoices_contracts.Base.{
  ℕ, ◌≡◌, refl, ◌↔◌, Bool, true, false, List, [], ◌∷◌, Option, none, some, arith, nat_beq, Eq, ◌==◌,
  if◌then◌else◌,
}

-- An address by its number.
pub data IpAddr : Type 0 where
  v4 v6 : ℕ → IpAddr

abbrev ip_beq : IpAddr → IpAddr → Bool
ip_beq (v4 a) (v4 b) = nat_beq a b
ip_beq (v4 a) (v6 b) = false
ip_beq (v6 a) (v4 b) = false
ip_beq (v6 a) (v6 b) = nat_beq a b

ip_beq_iff : (a b : IpAddr) → (ip_beq a b ≡ true) ↔ (a ≡ b)
ip_beq_iff (v4 a) (v4 b) = ground arith
ip_beq_iff (v4 a) (v6 b) = ground arith
ip_beq_iff (v6 a) (v4 b) = ground arith
ip_beq_iff (v6 a) (v6 b) = ground arith

instance unfoldable pub ip_eq : Eq IpAddr
unfolding ip_beq_iff
ip_eq = record { beq = ip_beq; beq_iff = ip_beq_iff }

abbrev pub Attempts : Type 0 → Type 0
Attempts V = List (IpAddr × V)

module _ {V : Type 0} where
  unfoldable pub lookup : IpAddr → Attempts V → Option V
  lookup ip [] = none
  lookup ip ((key, v) ∷ m) = if key == ip then some v else lookup ip m

  unfoldable pub remove : IpAddr → Attempts V → Attempts V
  remove ip [] = []
  remove ip ((key, v) ∷ m) = if key == ip then remove ip m else (key, v) ∷ remove ip m

  -- The entry of an address, put in place of what was there.
  unfoldable pub insert : IpAddr → V → Attempts V → Attempts V
  unfolding remove
  insert ip v m = (ip, v) ∷ remove ip m

  unfoldable pub retain : (V → Bool) → Attempts V → Attempts V
  retain p [] = []
  retain p ((key, v) ∷ m) = if p v then (key, v) ∷ retain p m else retain p m

  -- No address has two entries.
  abbrev pub IsMap : Attempts V → Type 0
  IsMap [] = Unit {0}
  IsMap ((key, v) ∷ m) = (lookup key m ≡ none) × IsMap m

  -- What is left of an entry after `retain`.
  abbrev pub kept : (V → Bool) → Option V → Option V
  kept p none = none
  kept p (some v) = if p v then some v else none

  pub lookup-remove :
      (ip key : IpAddr) (m : Attempts V)
      → lookup key (remove ip m) ≡ (if ip == key then none else lookup key m)
  unfolding lookup remove
  lookup-remove ip key [] = ground arith
  lookup-remove ip key ((k, v) ∷ m) =
      ground (
        arith,
        ip_eq.beq_iff k ip,
        ip_eq.beq_iff k key,
        ip_eq.beq_iff ip key,
        lookup-remove ip key m,
      )

  pub lookup-insert :
      (ip key : IpAddr) (v : V) (m : Attempts V)
      → lookup key (insert ip v m) ≡ (if ip == key then some v else lookup key m)
  unfolding lookup insert
  lookup-insert ip key v m = ground (arith, lookup-remove ip key m)

  pub lookup-retain :
      (p : V → Bool) (key : IpAddr) (m : Attempts V)
      → IsMap m
      → lookup key (retain p m) ≡ kept p (lookup key m)
  unfolding lookup retain
  lookup-retain p key [] h = refl
  lookup-retain p key ((k, v) ∷ m) h =
      ground (arith, ip_eq.beq_iff k key, lookup-retain p key m h.1)

  pub remove-IsMap : (ip : IpAddr) (m : Attempts V) → IsMap m → IsMap (remove ip m)
  unfolding remove
  remove-IsMap ip [] h = tt
  remove-IsMap ip ((k, v) ∷ m) h = ground (arith, remove-IsMap ip m h.1, lookup-remove ip k m)

  pub insert-IsMap : (ip : IpAddr) (v : V) (m : Attempts V) → IsMap m → IsMap (insert ip v m)
  unfolding insert
  insert-IsMap ip v m h =
      ground (arith, remove-IsMap ip m h, lookup-remove ip ip m, ip_eq.beq_iff ip ip)

  pub retain-IsMap : (p : V → Bool) (m : Attempts V) → IsMap m → IsMap (retain p m)
  unfolding retain
  retain-IsMap p [] h = tt
  retain-IsMap p ((k, v) ∷ m) h = ground (arith, retain-IsMap p m h.1, lookup-retain p k m h.1)
