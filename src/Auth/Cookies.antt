-- ===== src/Auth/Cookies.antt =====
-- src/auth.rs: the tokens that a request carries, and the cookies that a response sets. A header is
-- its text, `none` where it is missing or no visible ASCII, so the white space is that of ASCII.
use invoices_contracts.Base.{
  ℕ, Bool, ◌||◌, ◌&&◌, List, [], ◌∷◌, ◌++◌, Option, none, some, Text, ascii, ◌==◌, nat_eq, leb,
  if◌then◌else◌,
}
use invoices_contracts.Auth.Config.{cookie_name, refresh_cookie_name}

abbrev pub push_first : ℕ → List Text → List Text
push_first c [] = (c ∷ []) ∷ []
push_first c (part ∷ parts) = (c ∷ part) ∷ parts

-- `text.split(sep)`
unfoldable pub split : ℕ → Text → List Text
split sep [] = [] ∷ []
split sep (c ∷ text) =
    let parts = split sep text in if c == sep then [] ∷ parts else push_first c parts

abbrev pub is_space : ℕ → Bool
is_space c = (leb 9 c && leb c 13) || c == b' '

unfoldable pub trim_start : Text → Text
trim_start [] = []
trim_start (c ∷ text) = if is_space c then trim_start text else c ∷ text

abbrev pub drop_space : ℕ → Text → Text
drop_space c [] = if is_space c then [] else c ∷ []
drop_space c (d ∷ text) = c ∷ (d ∷ text)

unfoldable pub trim_end : Text → Text
trim_end [] = []
trim_end (c ∷ text) = drop_space c (trim_end text)

-- `text.trim()`
unfoldable pub trim : Text → Text
unfolding trim_start trim_end
trim text = trim_end (trim_start text)

-- `text.strip_prefix(prefix)`
unfoldable pub strip_prefix : Text → Text → Option Text
strip_prefix [] text = some text
strip_prefix (a ∷ prefix) [] = none
strip_prefix (a ∷ prefix) (b ∷ text) = if a == b then strip_prefix prefix text else none

-- `find_map`
unfoldable pub find_map {ℓ κ} : {A : Type ℓ} {B : Type κ} → (A → Option B) → List A → Option B
find_map f [] = none
find_map f (x ∷ xs) = let rest = find_map f xs in elim (f x) [ none ↦ rest | some b ↦ some b ]

unfoldable pub extract_cookie : Option Text → Text → Option Text
unfolding split trim strip_prefix find_map
extract_cookie none name = none
extract_cookie (some header) name =
    find_map (λ c. strip_prefix (name ++ b'=' ∷ []) (trim c)) (split b';' header)

unfoldable pub extract_bearer : Option Text → Option Text
unfolding strip_prefix
extract_bearer none = none
extract_bearer (some header) = strip_prefix (ascii "Bearer ") header

pub record RefreshedTokens : Type 0 where
  pub new_jwt : Text
  pub new_refresh_token : Text

pub record AuthUser : Type 0 where
  pub email : Text
  pub refreshed_tokens : Option RefreshedTokens

-- `format!("{}={}; Path=/; HttpOnly; Secure; SameSite=Strict", name, value)`
abbrev pub cookie_text : Text → Text → Text
cookie_text name value =
    name ++ (b'=' ∷ (value ++ ascii "; Path=/; HttpOnly; Secure; SameSite=Strict"))

abbrev pub append_parsed : Option Text → List Text → List Text
append_parsed none headers = headers
append_parsed (some header) headers = headers ++ header ∷ []

-- The headers `set-cookie` of the response; `parse` is that of a header value, which leaves out what
-- it cannot read.
unfoldable pub apply_refreshed_cookies : (Text → Option Text) → AuthUser → List Text → List Text
apply_refreshed_cookies parse user headers = elim (user.refreshed_tokens) [
  | none ↦ headers
  | some tokens ↦
      append_parsed (parse (cookie_text refresh_cookie_name tokens.new_refresh_token))
        (append_parsed (parse (cookie_text cookie_name tokens.new_jwt)) headers)
]
