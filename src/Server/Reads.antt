-- ===== src/Server/Reads.antt =====
-- What a handler that writes nothing to the database has found when it is done: a postcondition
-- over the database that it read, with a rule for each step of a `do` block.
use invoices_contracts.Base.{◌≡◌, ◌∙◌, Bool, true, subst}
use invoices_contracts.Database.{Database}
use invoices_contracts.Server.{Server, StatusCode, done, Handler, pure, require, ◌>>=◌, >>=-done}
use invoices_contracts.Server.Keeps.{
  KeepsDb, KeepsDb-pure, KeepsDb-require, db_after, require-done, pure-done,
}

pub record Reads {A : Type 0} (db : Database) (m : Handler A) (Q : A → Type 0) : Type 0 where
  pub at : (s t : Server) (a : A) → s.db ≡ db → m s ≡ (done a, t) → (t.db ≡ db) × Q a

module _ {A : Type 0} where
  pub Reads-of :
      (db : Database) (m : Handler A) (Q : Database → A → Type 0)
      → KeepsDb m
      → ((s t : Server) (a : A) → m s ≡ (done a, t) → Q s.db a)
      → Reads db m (Q db)
  Reads-of db m Q k h = record {
    at = λ s t a e r. (db_after m s t (done a) k r ∙ e, subst (λ d. Q d a) e (h s t a r));
  }

  pub Reads-pure : (db : Database) (a : A) (Q : A → Type 0) → Q a → Reads db (pure a) Q
  Reads-pure db a Q q =
      Reads-of db (pure a) (λ d. Q) (KeepsDb-pure a) (λ s t b r. subst Q (pure-done a s t b r).0 q)

pub Reads-require :
    (db : Database) (e : StatusCode) (c : Bool) → Reads db (require e c) (λ u. c ≡ true)
Reads-require db e c =
    Reads-of db (require e c) (λ d u. c ≡ true) (KeepsDb-require e c)
      (λ s t u r. (require-done e c s t u r).0)

module _ {A B : Type 0} where
  pub Reads-bind :
      (db : Database) (m : Handler A) (f : A → Handler B) (Q : A → Type 0) (R : B → Type 0)
      → Reads db m Q
      → ((a : A) → Q a → Reads db (f a) R)
      → Reads db (m >>= f) R
  Reads-bind db m f Q R rm rf = record {
    at = λ s t b e r.
        let (a, u, first, rest) = >>=-done m f s t b r in
        let (same, q) = rm.at s u a e first in (rf a q).at u t b same rest;
  }
