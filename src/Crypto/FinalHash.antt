-- ===== src/Crypto/FinalHash.antt =====
-- src/crypto.rs: the hash over all signatures of a contract.
use invoices_contracts.Base.{◌≡◌, List, [], ◌∷◌, ◌++◌, map, some, Text, append_assoc, append-nil}
use invoices_contracts.Crypto.{Primitives, hash_content, combine, generate_final_hash}

module _ {A : Type 0} (hash_of stamp_of content_of : A → Text) where
  -- The parts of the records, one record after the other.
  pub entries : List A → Text
  entries [] = []
  entries (r ∷ rs) = hash_of r ++ (stamp_of r ++ (content_of r ++ entries rs))

  combine-entries :
      (combined : Text) (rs : List A)
      → combine combined (map hash_of rs) (map stamp_of rs) (map content_of rs)
        ≡ some (combined ++ entries rs)
  unfolding combine entries
  combine-entries combined [] = simp append-nil
  combine-entries combined (r ∷ rs) =
      rw (combine-entries (((combined ++ hash_of r) ++ stamp_of r) ++ content_of r) rs)
        (simp append_assoc)

  -- Over the columns of one list of records the final hash does not panic, and is the hash of the
  -- content with the parts of every record behind it, in the order of the records.
  pub final_hash-entries :
      (p : Primitives) (content : Text) (rs : List A)
      → generate_final_hash p content (map hash_of rs) (map stamp_of rs) (map content_of rs)
        ≡ some (hash_content p (content ++ entries rs))
  unfolding generate_final_hash
  final_hash-entries p content rs = rw (combine-entries content rs, generate_final_hash)
