-- ===== src/Program.antt =====
-- Code with state and early returns: a program takes the state and returns a value or the reason
-- for which it stopped, with the new state in both cases.
pub mod Rules
use invoices_contracts.Base.{Bool, true, false, Option, none, some}

pub data Try (E A : Type 0) : Type 0 where
  value : A → Try E A
  stop : E → Try E A

abbrev pub Program : Type 0 → Type 0 → Type 0 → Type 0
Program S E A = S → Try E A × S

module _ {S E A : Type 0} where
  unfoldable pub pure : A → Program S E A
  pure a s = (value a, s)

  unfoldable pub return_early : E → Program S E A
  return_early e s = (stop e, s)

  -- `match o { Some(a) => a, None => return e }`
  unfoldable pub or_return : E → Option A → Program S E A
  or_return e none s = (stop e, s)
  or_return e (some a) s = (value a, s)

-- `if !c { return e }`
unfoldable pub check : {S E : Type 0} → E → Bool → Program S E (Unit {0})
check e true s = (value tt, s)
check e false s = (stop e, s)

infixl 5 ◌>>=◌ ◌>>◌
-- To open this is to open all of the above.
unfoldable pub ◌>>=◌ : {S E A B : Type 0} → Program S E A → (A → Program S E B) → Program S E B
unfolding pure return_early or_return check
◌>>=◌ m f s = let (r, t) = m s in elim r [ value a ↦ f a t | stop e ↦ (stop e, t) ]

abbrev pub ◌>>◌ : {S E B : Type 0} → Program S E (Unit {0}) → Program S E B → Program S E B
m >> k = m >>= λ _. k

module _ {S E A : Type 0} where
  -- `m.ok()`, which forgets the error and goes on.
  unfoldable pub ok_of : {F : Type 0} → Program S E A → Program S F (Option A)
  ok_of m s =
      let (r, t) = m s in elim r [ value a ↦ (value (some a), t) | stop e ↦ (value none, t) ]

  -- `m.map_err(f)?`
  unfoldable pub map_err : {F : Type 0} → (E → F) → Program S E A → Program S F A
  map_err f m s = let (r, t) = m s in elim r [ value a ↦ (value a, t) | stop e ↦ (stop (f e), t) ]

  -- `let _ = m;`
  unfoldable pub ignore : {F : Type 0} → Program S E A → Program S F (Unit {0})
  ignore m s = (value tt, (m s).1)
