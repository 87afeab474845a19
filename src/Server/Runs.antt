-- ===== src/Server/Runs.antt =====
-- Steps that are done, run forwards: a `do` block goes on with what the step has returned.
use invoices_contracts.Base.{◌≡◌, refl, ap, ◌∙◌, Bool, true, false, Option, some}
use invoices_contracts.Database.{Database}
use invoices_contracts.Server.{
  Server, StatusCode, Outcome, done, failed, Handler, ◌>>=◌, or_fail, query, require, write,
}

-- A step that is done, and the rest behind it.
pub run-bind :
    {A B : Type 0} (m : Handler A) (f : A → Handler B) (s t : Server) (a : A)
    (x : Outcome B × Server)
    → m s ≡ (done a, t)
    → f a t ≡ x
    → (m >>= f) s ≡ x
unfolding ◌>>=◌
run-bind {B = B} m f s t a x e k =
    ap
      (λ r. elim (r.0) as (λ o. Outcome B × Server) [
        | done b ↦ f b r.1
        | failed c ↦ (failed c, r.1)
      ])
      e
    ∙ k

module _ {A B : Type 0} where
  pub run-query :
      (fault : Bool) (f : Database → A) (k : A → Handler B) (s : Server) (a : A)
      (x : Outcome B × Server)
      → fault ≡ false
      → f s.db ≡ a
      → k a s ≡ x
      → (query fault f >>= k) s ≡ x
  unfolding query
  run-query fault f k s a x calm read rest =
      run-bind (query fault f) k s s a x (rw (calm, query, read) refl) rest

  pub run-or_fail :
      (e : StatusCode) (o : Option A) (k : A → Handler B) (s : Server) (a : A)
      (x : Outcome B × Server)
      → o ≡ some a
      → k a s ≡ x
      → (or_fail e o >>= k) s ≡ x
  unfolding or_fail
  run-or_fail e o k s a x there rest =
      run-bind (or_fail e o) k s s a x (rw (there, or_fail) refl) rest

pub run-require :
    {B : Type 0} (e : StatusCode) (c : Bool) (k : Unit {0} → Handler B) (s : Server)
    (x : Outcome B × Server)
    → c ≡ true
    → k tt s ≡ x
    → (require e c >>= k) s ≡ x
unfolding require
run-require e c k s x holds rest = run-bind (require e c) k s s tt x (rw (holds, require) refl) rest

pub write-runs :
    (fault : Bool) (f : Database → Database) (s : Server)
    → fault ≡ false
    → write fault f s ≡ (done tt, record s { db = f s.db })
unfolding write
write-runs fault f s calm = rw (calm, write) refl

pub run-write :
    {B : Type 0} (fault : Bool) (f : Database → Database) (k : Unit {0} → Handler B) (s : Server)
    (x : Outcome B × Server)
    → fault ≡ false
    → k tt (record s { db = f s.db }) ≡ x
    → (write fault f >>= k) s ≡ x
run-write fault f k s x calm rest =
    run-bind (write fault f) k s _ tt x (write-runs fault f s calm) rest
