-- ===== src/Auth/Rotate.antt =====
-- src/auth.rs: a refresh token that was used.
use invoices_contracts.Base.{
  ◌≡◌, sym, ap, ◌∙◌, true, false, Bool-cases, inl, inr, List, [], ◌∷◌, Option, none, some, arith,
  Text, ◌==◌, text_eq, any, any-append, find, update, eq_of_==, subst, Option-cases,
}
use invoices_contracts.Base.Int.{ℤ}
use invoices_contracts.RateLimit.{Time}
use invoices_contracts.Models.{User, RefreshToken, CreateRefreshToken}
use invoices_contracts.Database.{Database}
use invoices_contracts.Database.Accounts.{
  is_user, is_jwt, is_refresh, insert_jwt, insert_refresh, refresh_row, retire, revoke_refresh_rows,
}
use invoices_contracts.Program.{value, pure, or_return, ok_of, ignore}
use invoices_contracts.Program.Rules.{split_bind, map_err-inv, or_return-inv, subst-pure}
use invoices_contracts.Auth.Config.{JwtConfig}
use invoices_contracts.Auth.Store.{
  Services, Condition, fine, no_connection, query_error, revoke_refresh_token_call, access,
  insertion, store_jwt, store_refresh_token, get_valid_refresh_token, revoke_refresh_token,
  get_user_by_id, is_valid_refresh, hash_token,
}
use invoices_contracts.Auth.Cookies.{AuthUser}
use invoices_contracts.Auth.Extract.{login_page, Parts, flatten, refresh}
use invoices_contracts.Auth.Dead.{
  live_refresh, live_refresh-retire_self, any_refresh-retire, access-inv,
}

-- A refresh token is stored, and as a used one alone.
pub record IsUsed (k : Text) (rows : List RefreshToken) : Type 0 where
  pub stored : any (is_refresh k) rows ≡ true
  pub retired : any (live_refresh k) rows ≡ false

any-found :
    (ext : Services) (raw : Text) (now : Time) (rows : List RefreshToken) (row : RefreshToken)
    → find (is_valid_refresh ext raw now) rows ≡ some row
    → any (is_refresh (hash_token ext raw)) rows ≡ true
any-found ext raw now [] row e = absurd (ground arith)
any-found ext raw now (t ∷ ts) row e = elim (Bool-cases (is_valid_refresh ext raw now t)) [
  | inl here ↦ ground arith
  | inr there ↦ let rest = any-found ext raw now ts row (ground arith) in ground arith
]

pub insert_refresh-IsUsed :
    (k : Text) (new : CreateRefreshToken) (db after : Database)
    → IsUsed k db.refresh_tokens
    → insert_refresh new db ≡ some after
    → IsUsed k after.refresh_tokens
unfolding insert_refresh
insert_refresh-IsUsed k new db after d e = elim (Bool-cases (new.token_hash == k)) [
  | inl same ↦
      let again =
        ap (λ x. any (is_refresh x) db.refresh_tokens) (eq_of_== new.token_hash k same)
        ∙ d.stored in
      absurd (ground arith)
  | inr other ↦
      let row = refresh_row db.next_refresh new in
      ground (
        arith,
        any-append (is_refresh k) db.refresh_tokens (row ∷ []),
        any-append (live_refresh k) db.refresh_tokens (row ∷ []),
        d.stored,
        d.retired,
      )
]

insertion-inv :
    (o : Option Database) (s t : Database) (a : Unit {0})
    → insertion o s ≡ (value a, t)
    → o ≡ some t
unfolding insertion
insertion-inv none s t a h = absurd (ground arith)
insertion-inv (some new) s t a h = ground arith

-- The steps of `refresh` that go on.
module _ (ext : Services) (raw : Text) (s t : Database) where
  lookup-inv :
      {E : Type 0} (c : Condition) (now : Time) (o : Option (Option (ℤ × ℤ))) (row : ℤ × ℤ)
      → ok_of {F = E} (get_valid_refresh_token ext c now raw) s ≡ (value o, t)
      → flatten o ≡ some row
      → (s ≡ t) × (any (is_refresh (hash_token ext raw)) s.refresh_tokens ≡ true)
  unfolding ok_of get_valid_refresh_token access
  lookup-inv fine now o row h found =
      elim (Option-cases (find (is_valid_refresh ext raw now) s.refresh_tokens)) [
        | inl missing ↦ absurd (ground arith)
        | inr (w, there) ↦ (ground arith, any-found ext raw now s.refresh_tokens w there)
      ]
  lookup-inv (no_connection e) now o row h found = absurd (ground arith)
  lookup-inv (query_error e) now o row h found = absurd (ground arith)

  user-inv : (c : Condition) (id : ℤ) (u : User) → get_user_by_id c id s ≡ (value u, t) → s ≡ t
  unfolding get_user_by_id access
  user-inv fine id u h = elim (Option-cases (find (is_user id) s.users)) [
    | inl missing ↦ absurd (ground arith)
    | inr (w, there) ↦ ground arith
  ]
  user-inv (no_connection e) id u h = absurd (ground arith)
  user-inv (query_error e) id u h = absurd (ground arith)

  store_jwt-refresh_tokens :
      (c : Condition) (config : JwtConfig) (now : Time) (id : ℤ) (token : Text) (a : Unit {0})
      → store_jwt ext c config now id token s ≡ (value a, t)
      → t.refresh_tokens ≡ s.refresh_tokens
  unfolding store_jwt insertion insert_jwt
  store_jwt-refresh_tokens c config now id token a h =
      let done = access-inv c _ s t a h in
      elim (Bool-cases (any (is_jwt (hash_token ext token)) s.jwt_tokens)) [
        | inl taken ↦ absurd (ground arith)
        | inr free ↦ ground arith
      ]

  revoke-IsUsed :
      {E : Type 0} (c : Condition) (a : Unit {0})
      → c ≡ fine
      → ignore {F = E} (revoke_refresh_token ext c raw) s ≡ (value a, t)
      → any (is_refresh (hash_token ext raw)) s.refresh_tokens ≡ true
      → IsUsed (hash_token ext raw) t.refresh_tokens
  unfolding ignore revoke_refresh_token access revoke_refresh_rows
  revoke-IsUsed fine a works h stored =
      let rows : t.refresh_tokens
          ≡ update (is_refresh (hash_token ext raw)) retire s.refresh_tokens =
        ground arith in
      record {
        stored = ap (any (is_refresh _)) rows ∙ any_refresh-retire _ _ s.refresh_tokens ∙ stored;
        retired = ap (any (live_refresh _)) rows ∙ live_refresh-retire_self _ s.refresh_tokens;
      }
  revoke-IsUsed (no_connection e) a works h stored = absurd (ground arith)
  revoke-IsUsed (query_error e) a works h stored = absurd (ground arith)

  store_refresh-IsUsed :
      (c : Condition) (config : JwtConfig) (now : Time) (id : ℤ) (token : Text) (a : Unit {0})
      → store_refresh_token ext c config now id token s ≡ (value a, t)
      → IsUsed (hash_token ext raw) s.refresh_tokens
      → IsUsed (hash_token ext raw) t.refresh_tokens
  unfolding store_refresh_token
  store_refresh-IsUsed c config now id token a h d =
      insert_refresh-IsUsed _ _ s t d (insertion-inv _ s t a (access-inv c _ s t a h))

pub refresh-IsUsed :
    (ext : Services) (config : JwtConfig) (parts : Parts) (raw : Text) (s t : Database)
    (u : AuthUser)
    → refresh ext config parts (some raw) s ≡ (value u, t)
    → parts.conditions revoke_refresh_token_call ≡ fine
    → IsUsed (hash_token ext raw) t.refresh_tokens
unfolding refresh pure or_return
refresh-IsUsed ext config parts raw s t u h works = split_bind _ _ s t u h (λ x s1 e1 h1.
    split_bind _ _ s1 t u h1 (λ o s2 e2 h2. split_bind _ _ s2 t u h2 (λ row s3 e3 h3.
      split_bind _ _ s3 t u h3 (λ user s4 e4 h4. split_bind _ _ s4 t u h4 (λ jwt s5 e5 h5.
        split_bind _ _ s5 t u h5 (λ a6 s6 e6 h6. split_bind _ _ s6 t u h6 (λ a7 s7 e7 h7.
          split_bind _ _ s7 t u h7 (λ a8 s8 e8 h8.
            let (is_raw, same1) = or_return-inv login_page (some raw) s s1 x e1 in
            let raw_x : x ≡ raw = ground arith in
            let (is_row, same3) = or_return-inv _ _ s2 s3 row e3 in
            let (same2, stored) = lookup-inv ext x s1 s2 _ _ o row e2 is_row in
            let same4 = user-inv ext x s3 s4 _ _ user (map_err-inv _ _ s3 s4 user e4) in
            let (is_jwt, same5) = or_return-inv _ _ s4 s5 jwt e5 in
            let rows =
              store_jwt-refresh_tokens ext x s5 s6 _ config _ _ jwt a6 (map_err-inv _ _ s5 s6 a6 e6)
              ∙ sym (ap (λ d. d.refresh_tokens) (same2 ∙ same3 ∙ same4 ∙ same5)) in
            let used =
              revoke-IsUsed ext x s6 s7 _ a7 works e7
                (ap (any (is_refresh (hash_token ext x))) rows ∙ stored) in
            let after =
              store_refresh-IsUsed ext x s7 s8 _ config _ _ _ a8 (map_err-inv _ _ s7 s8 a8 e8)
                used in
            subst (λ y. IsUsed (hash_token ext y) t.refresh_tokens) raw_x
              (subst-pure (λ w d. IsUsed (hash_token ext x) d.refresh_tokens) _ u s8 t h8
                after)))))))))
