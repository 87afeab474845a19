-- ===== src/Auth/Headers.antt =====
-- src/auth.rs: `extract_cookie` on a header that is written as a browser writes it.
use invoices_contracts.Base.{
  ℕ, ◌≡◌, refl, ap, ◌∙◌, Bool, true, false, ◌||◌, List, [], ◌∷◌, ◌++◌, Option, none, some, arith,
  Text, ◌==◌, text_eq, text_beq, nat_eq, any, if◌then◌else◌, All,
}
use invoices_contracts.Auth.Cookies.{
  split, push_first, is_space, trim_start, trim_end, trim, strip_prefix, find_map, extract_cookie,
}

abbrev pair_text : Text × Text → Text
pair_text p = p.0 ++ b'=' ∷ p.1

abbrev render_rest : List (Text × Text) → Text
render_rest [] = []
render_rest (p ∷ ps) = b';' ∷ (b' ' ∷ (pair_text p ++ render_rest ps))

-- `name=text; name=text; …`
abbrev pub render : (Text × Text) → List (Text × Text) → Text
render p ps = pair_text p ++ render_rest ps

-- The text of the first cookie of that name.
abbrev pub text_of : Text → List (Text × Text) → Option Text
text_of name [] = none
text_of name (p ∷ ps) = if p.0 == name then some p.1 else text_of name ps

abbrev is_separator : ℕ → Bool
is_separator c = is_space c || c == b';'

-- No white space and no semicolon in the cookie, and no equals sign in its name.
abbrev pub IsPlain : Text × Text → Type 0
IsPlain p = (any is_separator (pair_text p) ≡ false) × (any (λ c. c == b'=') p.0 ≡ false)

split-append :
    (x y : Text) (parts : List Text)
    → any is_separator x ≡ false
    → split b';' y ≡ [] ∷ parts
    → split b';' (x ++ y) ≡ x ∷ parts
unfolding split
split-append [] y parts n e = e
split-append (c ∷ x) y parts n e = ground (arith, split-append x y parts)

abbrev rest_parts : List (Text × Text) → List Text
rest_parts [] = []
rest_parts (p ∷ ps) = (b' ' ∷ pair_text p) ∷ rest_parts ps

split-rest :
    (ps : List (Text × Text)) → All IsPlain ps → split b';' (render_rest ps) ≡ [] ∷ rest_parts ps
unfolding split
split-rest [] h = refl
split-rest (p ∷ ps) h =
    let inner =
      split-append (pair_text p) (render_rest ps) (rest_parts ps) h.0.0 (split-rest ps h.1) in
    ap (λ parts. [] ∷ push_first b' ' parts) inner

trim_start-plain : (x : Text) → any is_separator x ≡ false → trim_start x ≡ x
unfolding trim_start
trim_start-plain [] n = refl
trim_start-plain (c ∷ x) n = ground arith

trim_end-plain : (x : Text) → any is_separator x ≡ false → trim_end x ≡ x
unfolding trim_end
trim_end-plain [] n = refl
trim_end-plain (c ∷ []) n = ground arith
trim_end-plain (c ∷ (d ∷ x)) n = ground (arith, trim_end-plain (d ∷ x))

trim-plain : (x : Text) → any is_separator x ≡ false → trim x ≡ x
unfolding trim
trim-plain x n = ap trim_end (trim_start-plain x n) ∙ trim_end-plain x n

trim-space : (x : Text) → any is_separator x ≡ false → trim (b' ' ∷ x) ≡ x
unfolding trim trim_start
trim-space x n = trim-plain x n

strip-name :
    (name n text : Text)
    → any (λ c. c == b'=') name ≡ false
    → any (λ c. c == b'=') n ≡ false
    → strip_prefix (name ++ b'=' ∷ []) (n ++ b'=' ∷ text) ≡ (if n == name then some text else none)
unfolding strip_prefix text_beq
strip-name [] [] text p q = refl
strip-name [] (d ∷ n) text p q = ground arith
strip-name (c ∷ name) [] text p q = ground arith
strip-name (c ∷ name) (d ∷ n) text p q = ground (arith, strip-name name n text)

find_map-step :
    {A : Type 0} (f : A → Option Text) (x : A) (xs : List A) (b : Bool) (text : Text)
    (r : Option Text)
    → f x ≡ (if b then some text else none)
    → find_map f xs ≡ r
    → find_map f (x ∷ xs) ≡ (if b then some text else r)
unfolding find_map
find_map-step f x xs true text r e k = ground arith
find_map-step f x xs false text r e k = ground arith

find-rest :
    (name : Text) (ps : List (Text × Text))
    → any (λ c. c == b'=') name ≡ false
    → All IsPlain ps
    → find_map (λ c. strip_prefix (name ++ b'=' ∷ []) (trim c)) (rest_parts ps) ≡ text_of name ps
unfolding find_map
find-rest name [] e h = refl
find-rest name (p ∷ ps) e h =
    find_map-step _ (b' ' ∷ pair_text p) (rest_parts ps) (p.0 == name) p.1 _
      (ap (strip_prefix (name ++ b'=' ∷ [])) (trim-space (pair_text p) h.0.0)
        ∙ strip-name name p.0 p.1 e h.0.1)
      (find-rest name ps e h.1)

-- A cookie is read from a header of cookies as the text of the first one with that name. Names and
-- texts hold no white space and no semicolon, and names no equals sign.
pub extract_cookie-render :
    (name : Text) (p : Text × Text) (ps : List (Text × Text))
    → any (λ c. c == b'=') name ≡ false
    → All IsPlain (p ∷ ps)
    → extract_cookie (some (render p ps)) name ≡ text_of name (p ∷ ps)
unfolding extract_cookie
extract_cookie-render name p ps e h =
    ap (find_map _)
      (split-append (pair_text p) (render_rest ps) (rest_parts ps) h.0.0 (split-rest ps h.1))
    ∙ find_map-step _ (pair_text p) (rest_parts ps) (p.0 == name) p.1 _
        (ap (strip_prefix (name ++ b'=' ∷ [])) (trim-plain (pair_text p) h.0.0)
          ∙ strip-name name p.0 p.1 e h.0.1)
        (find-rest name ps e h.1)
