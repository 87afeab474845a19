-- ===== src/Server/Keeps.antt =====
-- Handlers that leave the database alone, and what a step that is done has seen.
use invoices_contracts.Base.{
  ◌≡◌, refl, sym, ap, ◌∙◌, Bool, true, false, Option, none, some, arith, if◌then◌else◌,
}
use invoices_contracts.Database.{Database}
use invoices_contracts.Server.{
  Server, StatusCode, Outcome, done, failed, Handler, pure, fail, or_fail, query, require, ◌>>=◌,
}

-- `m` writes nothing to the database, whether it is done or fails.
pub record KeepsDb {A : Type 0} (m : Handler A) : Type 0 where
  pub same : (s : Server) → (m s).1.db ≡ s.db

module _ {A : Type 0} where
  pub KeepsDb-pure : (a : A) → KeepsDb (pure a)
  unfolding pure
  KeepsDb-pure a = record { same = λ s. refl }

  pub KeepsDb-fail : (e : StatusCode) → KeepsDb (fail {A = A} e)
  unfolding fail
  KeepsDb-fail e = record { same = λ s. refl }

  or_fail-same : (e : StatusCode) (o : Option A) (s : Server) → (or_fail e o s).1.db ≡ s.db
  unfolding or_fail
  or_fail-same e none s = refl
  or_fail-same e (some a) s = refl

  pub KeepsDb-or_fail : (e : StatusCode) (o : Option A) → KeepsDb (or_fail e o)
  KeepsDb-or_fail e o = record { same = or_fail-same e o }

  query-same : (b : Bool) (f : Database → A) (s : Server) → (query b f s).1.db ≡ s.db
  unfolding query
  query-same true f s = refl
  query-same false f s = refl

  pub KeepsDb-query : (b : Bool) (f : Database → A) → KeepsDb (query b f)
  KeepsDb-query b f = record { same = query-same b f }

  pub KeepsDb-if :
      (b : Bool) (m n : Handler A) → KeepsDb m → KeepsDb n → KeepsDb (if b then m else n)
  KeepsDb-if true m n km kn = km
  KeepsDb-if false m n km kn = kn

require-same : (e : StatusCode) (c : Bool) (s : Server) → (require e c s).1.db ≡ s.db
unfolding require
require-same e true s = refl
require-same e false s = refl

pub KeepsDb-require : (e : StatusCode) (c : Bool) → KeepsDb (require e c)
KeepsDb-require e c = record { same = require-same e c }

module _ {A B : Type 0} where
  after-same :
      (f : A → Handler B) (r : Outcome A × Server) (db : Database)
      → ((a : A) → KeepsDb (f a))
      → r.1.db ≡ db
      → (elim (r.0) as (λ o. Outcome B × Server) [
        | done a ↦ f a (r.1)
        | failed c ↦ (failed c, r.1)
      ]).1.db
        ≡ db
  after-same f (done a, t) db kf e = (kf a).same t ∙ e
  after-same f (failed c, t) db kf e = e

  pub KeepsDb-bind :
      (m : Handler A) (f : A → Handler B)
      → KeepsDb m
      → ((a : A) → KeepsDb (f a))
      → KeepsDb (m >>= f)
  unfolding ◌>>=◌
  KeepsDb-bind m f km kf = record { same = λ s. after-same f (m s) s.db kf (km.same s) }

pub ruleset keeps_rules = (
  KeepsDb-pure, KeepsDb-fail, KeepsDb-or_fail, KeepsDb-query, KeepsDb-if, KeepsDb-require,
  KeepsDb-bind,
)

-- The database behind a step that keeps it.
pub db_after :
    {A : Type 0} (m : Handler A) (s t : Server) (o : Outcome A)
    → KeepsDb m
    → m s ≡ (o, t)
    → t.db ≡ s.db
db_after m s t o k e = ap (λ r. r.1.db) (sym e) ∙ k.same s

-- A test that lets the request pass.
pub require-done :
    (e : StatusCode) (c : Bool) (s t : Server) (u : Unit {0})
    → require e c s ≡ (done u, t)
    → (c ≡ true) × (t ≡ s)
unfolding require
require-done e true s t u h = (refl, ground arith)
require-done e false s t u h = absurd (ground arith)

module _ {A : Type 0} where
  pub or_fail-done :
      (e : StatusCode) (o : Option A) (s t : Server) (a : A)
      → or_fail e o s ≡ (done a, t)
      → (o ≡ some a) × (t ≡ s)
  unfolding or_fail
  or_fail-done e none s t a h = absurd (ground arith)
  or_fail-done e (some b) s t a h = (ground arith, ground arith)

  pub query-done :
      (b : Bool) (f : Database → A) (s t : Server) (a : A)
      → query b f s ≡ (done a, t)
      → (f s.db ≡ a) × (t ≡ s)
  unfolding query
  query-done true f s t a h = absurd (ground arith)
  query-done false f s t a h = (ground arith, ground arith)

  pub pure-done : (b : A) (s t : Server) (a : A) → pure b s ≡ (done a, t) → (b ≡ a) × (t ≡ s)
  unfolding pure
  pure-done b s t a h = (ground arith, ground arith)
