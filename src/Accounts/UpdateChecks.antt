-- ===== src/Accounts/UpdateChecks.antt =====
-- src/handlers/auth.rs: what the checks of a change of a profile let through.
use invoices_contracts.Base.{
  ◌≡◌, refl, sym, ap, subst, ◌∙◌, inl, inr, true, false, ◌&&◌, Option-cases, Option, none, some,
  arith, Text, text_eq, nat_eq, ◌==◌, any, find, length, ltb, leb,
}
use invoices_contracts.Base.Int.{int_eq}
use invoices_contracts.Models.{User}
use invoices_contracts.Database.{Database}
use invoices_contracts.Database.Accounts.{has_email}
use invoices_contracts.Program.{value, pure}
use invoices_contracts.Program.Rules.{split_bind, or_return-inv, subst-pure, check-inv}
use invoices_contracts.Auth.Store.{
  Services, Condition, fine, no_connection, query_error, access, get_user_by_email, verify_password,
}
use invoices_contracts.Accounts.Profile.{
  UpdateUserRequest, check_password, check_update, new_password_hash,
}

pub get_user-inv :
    (c : Condition) (email : Text) (s t : Database) (u : User)
    → get_user_by_email c email s ≡ (value u, t)
    → (s ≡ t) × (find (has_email email) s.users ≡ some u)
unfolding get_user_by_email access
get_user-inv fine email s t u h = elim (Option-cases (find (has_email email) s.users)) [
  | inl missing ↦ absurd (ground arith)
  | inr (w, there) ↦ (ground arith, ground arith)
]
get_user-inv (no_connection e) email s t u h = absurd (ground arith)
get_user-inv (query_error e) email s t u h = absurd (ground arith)

check_password-inv :
    (new : Text) (s t : Database) (a : Unit {0})
    → check_password (some new) s ≡ (value a, t)
    → (s ≡ t) × (ltb (length new) 8 ≡ false) × (leb (length new) 128 ≡ true)
unfolding check_password
check_password-inv new s t a h = split_bind _ _ s t a h (λ b s1 e e'.
    let (long, same) = check-inv _ _ s s1 b e in
    let (short, same') = check-inv _ _ s1 t a e' in (same ∙ same', ground arith, short))

-- The checks do not change the store.
check_password-same :
    (new : Option Text) (s t : Database) (a : Unit {0})
    → check_password new s ≡ (value a, t)
    → s ≡ t
unfolding check_password pure
check_password-same none s t a h = ground arith
check_password-same (some new) s t a h = (check_password-inv new s t a h).0

-- The texts of a request that is let through.
pub record IsFitting (payload : UpdateUserRequest) : Type 0 where
  pub name : leb (length payload.name) 200 ≡ true
  pub email : leb (length payload.email) 255 ≡ true
  pub format : (any (λ b. b == b'@') payload.email && any (λ b. b == b'.') payload.email) ≡ true
  pub address : leb (length payload.address) 1000 ≡ true
  pub tax_id : leb (length payload.tax_id) 100 ≡ true

pub check_update-inv :
    (payload : UpdateUserRequest) (s t : Database) (a : Unit {0})
    → check_update payload s ≡ (value a, t)
    → (s ≡ t)
      × IsFitting payload
      × ((b : Unit {0}) × (check_password payload.new_password s ≡ (value b, s)))
unfolding check_update
check_update-inv payload s t a h = split_bind _ _ s t a h (λ a1 s1 e1 h1.
    split_bind _ _ s1 t a h1 (λ a2 s2 e2 h2. split_bind _ _ s2 t a h2 (λ a3 s3 e3 h3.
      split_bind _ _ s3 t a h3 (λ a4 s4 e4 h4. split_bind _ _ s4 t a h4 (λ a5 s5 e5 h5.
        let (name, same_1) = check-inv _ _ s s1 a1 e1 in
        let (email, same_2) = check-inv _ _ s1 s2 a2 e2 in
        let (format, same_3) = check-inv _ _ s2 s3 a3 e3 in
        let (address, same_4) = check-inv _ _ s3 s4 a4 e4 in
        let (tax_id, same_5) = check-inv _ _ s4 s5 a5 e5 in
        let same5 = same_1 ∙ same_2 ∙ same_3 ∙ same_4 ∙ same_5 in
        let same = check_password-same payload.new_password s5 t a h5 in
        let asked =
          subst (λ d. check_password payload.new_password d ≡ (value a, d)) (sym same5)
            (subst (λ d. check_password payload.new_password s5 ≡ (value a, d)) (sym same) h5) in
        (
          same5 ∙ same,
          record {
            name = name;
            email = email;
            format = format;
            address = address;
            tax_id = tax_id;
          },
          (a, asked),
        ))))))

module _ (ext : Services) where
  -- The password is kept, or the new one is stored by a user who knows the current one.
  pub data PasswordChange (salt : Text) (user : User) (payload : UpdateUserRequest)
      (hash : Option Text) : Type 0 where
    kept_old : payload.new_password ≡ none → hash ≡ none → PasswordChange salt user payload hash
    replaces :
        (new current h : Text)
        → payload.new_password ≡ some new
        → (ltb (length new) 8 ≡ false) × (leb (length new) 128 ≡ true)
        → payload.current_password ≡ some current
        → verify_password ext current user.password ≡ some true
        → ext.hash salt new ≡ some h
        → hash ≡ some h
        → PasswordChange salt user payload hash

  new_password_hash-none :
      (salt : Text) (user : User) (current : Option Text) (s t : Database) (hash : Option Text)
      → new_password_hash ext salt user current none s ≡ (value hash, t)
      → (s ≡ t) × (hash ≡ none)
  unfolding new_password_hash pure
  new_password_hash-none salt user current s t hash h = (ground arith, ground arith)

  new_password_hash-some :
      (salt : Text) (user : User) (current : Option Text) (new : Text) (s t : Database)
      (hash : Option Text)
      → new_password_hash ext salt user current (some new) s ≡ (value hash, t)
      → (s ≡ t)
        × ((c : Text) × (h : Text) × (current ≡ some c)
            × (verify_password ext c user.password ≡ some true)
            × (ext.hash salt new ≡ some h)
            × (hash ≡ some h))
  unfolding new_password_hash
  new_password_hash-some salt user current new s t hash h = split_bind _ _ s t hash h (λ c s1 e1 h1.
      split_bind _ _ s1 t hash h1 (λ right s2 e2 h2. split_bind _ _ s2 t hash h2 (λ a s3 e3 h3.
        split_bind _ _ s3 t hash h3 (λ hashed s4 e4 h4.
          let (is_current, same1) = or_return-inv _ _ s s1 c e1 in
          let (verified, same2) = or_return-inv _ _ s1 s2 right e2 in
          let (is_right, same3) = check-inv _ right s2 s3 a e3 in
          let (is_hash, same4) = or_return-inv _ _ s3 s4 hashed e4 in
          subst-pure
            (λ x u.
              (s ≡ u)
              × ((c : Text) × (h : Text) × (current ≡ some c)
                  × (verify_password ext c user.password ≡ some true)
                  × (ext.hash salt new ≡ some h)
                  × (x ≡ some h)))
            _ hash s4 t h4
            (
              same1 ∙ same2 ∙ same3 ∙ same4,
              (c, hashed, is_current, verified ∙ ap some is_right, is_hash, refl),
            )))))

  pub password_change :
      (salt : Text) (user : User) (payload : UpdateUserRequest) (s t : Database)
      (hash : Option Text) (a : Unit {0})
      → check_password payload.new_password s ≡ (value a, s)
      → new_password_hash ext salt user payload.current_password payload.new_password s
        ≡ (value hash, t)
      → (s ≡ t) × PasswordChange salt user payload hash
  password_change salt user payload s t hash a checked h =
      elim (Option-cases payload.new_password) [
        | inl kept ↦
            let (same, no_hash) =
              new_password_hash-none salt user payload.current_password s t hash (
                subst
                  (λ o.
                    new_password_hash ext salt user payload.current_password o s ≡ (value hash, t))
                  kept h) in
            (same, kept_old kept no_hash)
        | inr (new, given) ↦
            let (same, (c, hashed, is_current, verified, is_hash, is_some)) =
              new_password_hash-some salt user payload.current_password new s t hash (
                subst
                  (λ o.
                    new_password_hash ext salt user payload.current_password o s ≡ (value hash, t))
                  given h) in
            let (nothing, long, short) =
              check_password-inv new s s a
                (subst (λ o. check_password o s ≡ (value a, s)) given checked) in
            (same, replaces new c hashed given (long, short) is_current verified is_hash is_some)
      ]
