-- ===== src/Program/Rules.antt =====
-- Rules for programs: what a step that goes on has returned, and properties of the state that no
-- step breaks.
use invoices_contracts.Base.{
  ◌≡◌, refl, ap, subst, ◌∙◌, ◌⊎◌, inl, inr, Bool, true, false, Option, none, some, arith,
  if◌then◌else◌,
}
use invoices_contracts.Program.{
  Try, value, stop, Program, pure, return_early, or_return, check, ◌>>=◌, ok_of, map_err, ignore,
}

module _ {S E A B : Type 0} where
  after-value :
      (f : A → Program S E B) (r : Try E A × S) (t : S) (b : B)
      → ◌≡◌ {A = Try E B × S}
          (elim (r.0) [ value a ↦ f a (r.1) | stop e ↦ (stop e, r.1) ])
          (value b, t)
      → (a : A) × (u : S) × (r ≡ (value a, u)) × (f a u ≡ (value b, t))
  after-value f (value a, u) t b h = (a, u, refl, h)
  after-value f (stop e, u) t b h = absurd (ground arith)

  -- Inversion of a bind that goes on to its end.
  pub >>=-value :
      (m : Program S E A) (f : A → Program S E B) (s t : S) (b : B)
      → (m >>= f) s ≡ (value b, t)
      → (a : A) × (u : S) × (m s ≡ (value a, u)) × (f a u ≡ (value b, t))
  unfolding ◌>>=◌
  >>=-value m f s t b h = after-value f (m s) t b h

  -- The same, for a goal that the two halves give.
  pub split_bind :
      {R : Type 0} (m : Program S E A) (f : A → Program S E B) (s t : S) (b : B)
      → (m >>= f) s ≡ (value b, t)
      → ((a : A) (u : S) → m s ≡ (value a, u) → f a u ≡ (value b, t) → R)
      → R
  split_bind m f s t b h k = let (a, u, e, e') = >>=-value m f s t b h in k a u e e'

  after-stop :
      (f : A → Program S E B) (r : Try E A × S) (t : S) (e : E)
      → ◌≡◌ {A = Try E B × S}
          (elim (r.0) [ value a ↦ f a (r.1) | stop c ↦ (stop c, r.1) ])
          (stop e, t)
      → (r ≡ (stop e, t)) ⊎ ((a : A) × (u : S) × (r ≡ (value a, u)) × (f a u ≡ (stop e, t)))
  after-stop f (value a, u) t e h = inr (a, u, refl, h)
  after-stop f (stop c, u) t e h = inl (ground arith)

  -- What a step goes on with, run forwards.
  pub run-bind :
      (m : Program S E A) (f : A → Program S E B) (s t : S) (a : A) (x : Try E B × S)
      → m s ≡ (value a, t)
      → f a t ≡ x
      → (m >>= f) s ≡ x
  unfolding ◌>>=◌
  run-bind m f s t a x e k =
      ap (λ r. elim (r.0) as (λ o. Try E B × S) [ value b ↦ f b r.1 | stop c ↦ (stop c, r.1) ]) e
      ∙ k

  -- A step that stops ends the whole.
  pub stop-bind :
      (m : Program S E A) (f : A → Program S E B) (s t : S) (e : E)
      → m s ≡ (stop e, t)
      → (m >>= f) s ≡ (stop e, t)
  unfolding ◌>>=◌
  stop-bind m f s t e h =
      ap (λ r. elim (r.0) as (λ o. Try E B × S) [ value b ↦ f b r.1 | stop c ↦ (stop c, r.1) ]) h

-- Inversion of the other steps.
module _ {S E A : Type 0} where
  pub map_err-inv :
      {F : Type 0} (f : E → F) (m : Program S E A) (s t : S) (a : A)
      → map_err f m s ≡ (value a, t)
      → m s ≡ (value a, t)
  unfolding map_err
  map_err-inv {F} f m s t a h = go (m s) h
    where
      go :
          (r : Try E A × S)
          → ◌≡◌ {A = Try F A × S}
              (elim (r.0) [ value b ↦ (value b, r.1) | stop e ↦ (stop (f e), r.1) ])
              (value a, t)
          → r ≡ (value a, t)
      go (value b, u) k = ground arith
      go (stop e, u) k = absurd (ground arith)

  pub or_return-inv :
      (e : E) (o : Option A) (s t : S) (a : A)
      → or_return e o s ≡ (value a, t)
      → (o ≡ some a) × (s ≡ t)
  unfolding or_return
  or_return-inv e none s t a h = absurd (ground arith)
  or_return-inv e (some b) s t a h = (ground arith, ground arith)

  -- A property of what is returned, from that of what was given to `pure`.
  pub subst-pure :
      (P : A → S → Type 0) (a b : A) (s t : S) → pure {E = E} a s ≡ (value b, t) → P a s → P b t
  unfolding pure
  subst-pure P a b s t h p = subst (λ u. P b u) (ground arith) (subst (λ x. P x s) (ground arith) p)

-- `map_err`, `ok_of` and `ignore` of a step that is known.
module _ {S E F A : Type 0} (m : Program S E A) (s t : S) where
  pub map_err-value : (f : E → F) (a : A) → m s ≡ (value a, t) → map_err f m s ≡ (value a, t)
  unfolding map_err
  map_err-value f a h =
      ap
        (λ r. elim (r.0) as (λ o. Try F A × S) [
          | value b ↦ (value b, r.1)
          | stop e ↦ (stop (f e), r.1)
        ])
        h

  pub map_err-stop : (f : E → F) (e : E) → m s ≡ (stop e, t) → map_err f m s ≡ (stop (f e), t)
  unfolding map_err
  map_err-stop f e h =
      ap
        (λ r. elim (r.0) as (λ o. Try F A × S) [
          | value b ↦ (value b, r.1)
          | stop c ↦ (stop (f c), r.1)
        ])
        h

  pub ok_of-value : (a : A) → m s ≡ (value a, t) → ok_of {F = F} m s ≡ (value (some a), t)
  unfolding ok_of
  ok_of-value a h =
      ap
        (λ r. elim (r.0) as (λ o. Try F (Option A) × S) [
          | value b ↦ (value (some b), r.1)
          | stop e ↦ (value none, r.1)
        ])
        h

  pub ok_of-stop : (e : E) → m s ≡ (stop e, t) → ok_of {F = F} m s ≡ (value none, t)
  unfolding ok_of
  ok_of-stop e h =
      ap
        (λ r. elim (r.0) as (λ o. Try F (Option A) × S) [
          | value b ↦ (value (some b), r.1)
          | stop c ↦ (value none, r.1)
        ])
        h

-- A property of the state that `m` does not break.
pub record Preserves {S E A : Type 0} (P : S → Type 0) (m : Program S E A) : Type 0 where
  pub kept : (s : S) → P s → P (m s).1

module _ {S E A : Type 0} (P : S → Type 0) where
  pub Preserves-pure : (a : A) → Preserves {E = E} P (pure a)
  unfolding pure
  Preserves-pure a = record { kept = λ s h. h }

  or_return-kept : (e : E) (o : Option A) (s : S) → P s → P (or_return e o s).1
  unfolding or_return
  or_return-kept e none s h = h
  or_return-kept e (some a) s h = h

  pub Preserves-or_return : (e : E) (o : Option A) → Preserves P (or_return e o)
  Preserves-or_return e o = record { kept = or_return-kept e o }

  pub Preserves-if :
      (b : Bool) (m n : Program S E A)
      → Preserves P m
      → Preserves P n
      → Preserves P (if b then m else n)
  Preserves-if true m n h k = h
  Preserves-if false m n h k = k

  pub Preserves-return_early : (e : E) → Preserves {A = A} P (return_early e)
  unfolding return_early
  Preserves-return_early e = record { kept = λ s h. h }

  map_kept :
      {F : Type 0} (f : E → F) (r : Try E A × S)
      → P r.1
      → P
          (elim (r.0) as (λ o. Try F A × S) [
            | value a ↦ (value a, r.1)
            | stop e ↦ (stop (f e), r.1)
          ]).1
  map_kept f (value a, t) h = h
  map_kept f (stop e, t) h = h

  pub Preserves-map_err :
      {F : Type 0} (f : E → F) (m : Program S E A) → Preserves P m → Preserves P (map_err f m)
  unfolding map_err
  Preserves-map_err f m k = record { kept = λ s h. map_kept f (m s) (k.kept s h) }

  ok_kept :
      (F : Type 0) (r : Try E A × S)
      → P r.1
      → P
          (elim (r.0) as (λ o. Try F (Option A) × S) [
            | value a ↦ (value (some a), r.1)
            | stop e ↦ (value none, r.1)
          ]).1
  ok_kept F (value a, t) h = h
  ok_kept F (stop e, t) h = h

  pub Preserves-ok_of :
      {F : Type 0} (m : Program S E A) → Preserves P m → Preserves P (ok_of {F = F} m)
  unfolding ok_of
  Preserves-ok_of {F} m k = record { kept = λ s h. ok_kept F (m s) (k.kept s h) }

  pub Preserves-ignore :
      {F : Type 0} (m : Program S E A) → Preserves P m → Preserves P (ignore {F = F} m)
  unfolding ignore
  Preserves-ignore m k = record { kept = λ s h. k.kept s h }

pub check-inv :
    {S E : Type 0} (e : E) (c : Bool) (s t : S) (a : Unit {0})
    → check e c s ≡ (value a, t)
    → (c ≡ true) × (s ≡ t)
unfolding check
check-inv e true s t a h = (refl, ground arith)
check-inv e false s t a h = absurd (ground arith)

check-kept : {S E : Type 0} (P : S → Type 0) (e : E) (c : Bool) (s : S) → P s → P (check e c s).1
unfolding check
check-kept P e true s h = h
check-kept P e false s h = h

pub Preserves-check : {S E : Type 0} (P : S → Type 0) (e : E) (c : Bool) → Preserves P (check e c)
Preserves-check P e c = record { kept = check-kept P e c }

bind_kept :
    {S E A B : Type 0} (P : S → Type 0) (f : A → Program S E B) (r : Try E A × S)
    → ((a : A) → Preserves P (f a))
    → P r.1
    → P (elim (r.0) as (λ o. Try E B × S) [ value a ↦ f a (r.1) | stop e ↦ (stop e, r.1) ]).1
bind_kept P f (value a, t) k h = (k a).kept t h
bind_kept P f (stop e, t) k h = h

pub Preserves-bind :
    {S E A B : Type 0} (P : S → Type 0) (m : Program S E A) (f : A → Program S E B)
    → Preserves P m
    → ((a : A) → Preserves P (f a))
    → Preserves P (m >>= f)
unfolding ◌>>=◌
Preserves-bind P m f km kf = record { kept = λ s h. bind_kept P f (m s) kf (km.kept s h) }

pub ruleset preserves_rules = (
  Preserves-pure, Preserves-or_return, Preserves-if, Preserves-return_early, Preserves-map_err,
  Preserves-ok_of, Preserves-ignore, Preserves-check, Preserves-bind,
)
