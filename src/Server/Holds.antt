-- ===== src/Server/Holds.antt =====
-- Properties of the tables that a handler does not break, done or failed.
use invoices_contracts.Base.{Bool, true, false, sym, subst}
use invoices_contracts.Database.{Database}
use invoices_contracts.Server.{Server, Outcome, done, failed, Handler, write, ◌>>=◌}
use invoices_contracts.Server.Keeps.{KeepsDb}

pub record Holds {A : Type 0} (P : Database → Type 0) (m : Handler A) : Type 0 where
  pub held : (s : Server) → P s.db → P (m s).1.db

module _ (P : Database → Type 0) where
  pub Holds-KeepsDb : {A : Type 0} (m : Handler A) → KeepsDb m → Holds P m
  Holds-KeepsDb m k = record { held = λ s p. subst P (sym (k.same s)) p }

  write-held :
      (fault : Bool) (f : Database → Database) (s : Server)
      → (P s.db → P (f s.db))
      → P s.db
      → P (write fault f s).1.db
  unfolding write
  write-held true f s keep p = p
  write-held false f s keep p = keep p

  pub Holds-write :
      (fault : Bool) (f : Database → Database)
      → ((db : Database) → P db → P (f db))
      → Holds P (write fault f)
  Holds-write fault f keep = record { held = λ s p. write-held fault f s (keep s.db) p }

  after-held :
      {A B : Type 0} (f : A → Handler B) (r : Outcome A × Server)
      → ((a : A) → Holds P (f a))
      → P r.1.db
      → P
          (elim (r.0) as (λ o. Outcome B × Server) [
            | done a ↦ f a (r.1)
            | failed c ↦ (failed c, r.1)
          ]).1.db
  after-held f (done a, t) k p = (k a).held t p
  after-held f (failed c, t) k p = p

  pub Holds-bind :
      {A B : Type 0} (m : Handler A) (f : A → Handler B)
      → Holds P m
      → ((a : A) → Holds P (f a))
      → Holds P (m >>= f)
  unfolding ◌>>=◌
  Holds-bind m f km kf = record { held = λ s p. after-held f (m s) kf (km.held s p) }

pub ruleset holds_rules = (Holds-write, Holds-bind)
