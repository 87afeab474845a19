-- ===== src/Crud/Finds.antt =====
-- The first row that passes a test, after an append, an update and a filter.
use invoices_contracts.Base.{
  ◌≡◌, refl, Bool, true, false, not, ◌&&◌, List, [], ◌∷◌, ◌++◌, none, some, arith, any, find,
  filter, update, if◌then◌else◌,
}
use invoices_contracts.Crud.Map.{is_none, map_option}

module _ {A : Type 0} where
  pub find-append :
      (p : A → Bool) (xs : List A) (y : A)
      → find p (xs ++ y ∷ []) ≡ (if is_none (find p xs) && p y then some y else find p xs)
  find-append p [] y = ground arith
  find-append p (x ∷ xs) y = ground (arith, find-append p xs y)

  pub any-is_none : (p : A → Bool) (xs : List A) → is_none (find p xs) ≡ not (any p xs)
  any-is_none p [] = refl
  any-is_none p (x ∷ xs) = ground (arith, any-is_none p xs)

  pub find-update_same :
      (p : A → Bool) (f : A → A) (xs : List A)
      → ((x : A) → p (f x) ≡ p x)
      → find p (update p f xs) ≡ map_option f (find p xs)
  find-update_same p f [] k = refl
  find-update_same p f (x ∷ xs) k = ground (arith, find-update_same p f xs k, k x)

  pub find-update_other :
      (p q : A → Bool) (f : A → A) (xs : List A)
      → ((x : A) → q (f x) ≡ q x)
      → ((x : A) → p x ≡ true → q x ≡ false)
      → find q (update p f xs) ≡ find q xs
  find-update_other p q f [] k d = refl
  find-update_other p q f (x ∷ xs) k d = ground (arith, find-update_other p q f xs k d, k x, d x)

  pub find-filter_same : (p : A → Bool) (xs : List A) → find p (filter (λ x. not (p x)) xs) ≡ none
  find-filter_same p [] = refl
  find-filter_same p (x ∷ xs) = ground (arith, find-filter_same p xs)

  pub find-filter_other :
      (p q : A → Bool) (xs : List A)
      → ((x : A) → p x ≡ true → q x ≡ false)
      → find q (filter (λ x. not (p x)) xs) ≡ find q xs
  find-filter_other p q [] d = refl
  find-filter_other p q (x ∷ xs) d = ground (arith, find-filter_other p q xs d, d x)
