-- ===== src/Crypto/Toy.antt =====
-- A toy scheme that has the documented behaviour: hex with two bytes for each byte, and a signature
-- of 64 zeros.
use invoices_contracts.Base.{
  ℕ, zero, suc, ◌+◌, ◌*◌, ◌/◌, ◌%◌, ◌-◌, ap, ◌≡◌, refl, true, [], ◌∷◌, Option, none, some, arith,
  Text, length,
}
use invoices_contracts.Crypto.{Primitives, IsLawful, IsBytes}

-- Digits from `a` on stand for 0 to 15.
unfoldable pub encode : Text → Text
encode [] = []
encode (b ∷ bs) = (b'a' + b / 16) ∷ ((b'a' + b % 16) ∷ encode bs)

unfoldable pub decode : Text → Option Text
decode [] = some []
decode (h ∷ []) = none
decode (h ∷ (l ∷ t)) = elim (decode t) [
  | none ↦ none
  | some bs ↦ some (((h - b'a') * 16 + (l - b'a')) ∷ bs)
]

decode-encode : (bytes : Text) → decode (encode bytes) ≡ some bytes
unfolding encode decode
decode-encode [] = refl
decode-encode (b ∷ bs) = rw (decode-encode bs, decode) (ground arith)

unfoldable pub zeros : ℕ → Text
zeros zero = []
zeros (suc n) = 0 ∷ zeros n

pub length-zeros : (n : ℕ) → length (zeros n) ≡ n
unfolding zeros
length-zeros zero = refl
length-zeros (suc n) = ap suc (length-zeros n)

pub zeros-IsBytes : (n : ℕ) → IsBytes (zeros n)
unfolding zeros
zeros-IsBytes zero = tt
zeros-IsBytes (suc n) = (omega arith, zeros-IsBytes n)

abbrev pub toy : Primitives
toy = record {
  hex_encode = encode;
  hex_decode = decode;
  sha256 = λ t. t;
  verifying_key = λ key. zeros 32;
  sign = λ key m. zeros 64;
  valid_key = λ key. true;
  verify = λ key m s. true;
}

pub toy-IsLawful : IsLawful toy
toy-IsLawful = record {
  decode-encode = λ bytes h. decode-encode bytes;
  key-IsBytes = λ key. zeros-IsBytes 32;
  signature-IsBytes = λ key m. zeros-IsBytes 64;
  length-key = λ key h. length-zeros 32;
  length-signature = λ key m. length-zeros 64;
  key_valid = λ key h. refl;
  verify-sign = λ key m h. refl;
}

abbrev pub seed : Text
seed = zeros 32
