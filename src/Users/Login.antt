-- ===== src/Users/Login.antt =====
-- Who gets in by `loginPassword` of src/auth/UserStorage.cpp, and what `remove` changes of it.
use mathlib.Core.List.{Memᴰ}
use native.Mathlib.Decide.{ℕ_discrete}
use teilpunkt.Base.{
  ℕ, ◌≤◌, ◌≡◌, ◌≢◌, ◌↔◌, ◌==◌, refl, ap, sym, ◌∙◌, none, some, List, [], ◌∷◌, eq_str, eq_str_iff,
  arith, Bool-cases, Option-cases, inl, inr, if◌then◌else◌, true,
}
use teilpunkt.Totp.{verify_totp}
use teilpunkt.Users.{
  Sodium, Credentials, CredentialsType, User, RequestUserLoginPassword, accepts, login_password,
  remove_user,
}
use teilpunkt.Users.Counts.{
  sum-remove_user-le, le-sum, has_name, name_count, id_count, mem_to_remove_user,
  mem_of_remove_user, remove_user-ne,
}

module _ (sodium : Sodium) (time : ℕ) (request : RequestUserLoginPassword) where
  -- A user with the name of the request, whom its code and password admit.
  pub record LogsIn (us : List User) (id : ℕ) : Type 0 where
    pub user : User
    pub stored : Memᴰ user us
    pub same_name : user.name ≡ request.name
    pub same_id : user.user_id ≡ id
    pub by_password : user.credentials.type ≡ CredentialsType.password
    pub right_code :
        verify_totp sodium.hmacsha512 time user.credentials.totp_key request.totp ≡ true
    pub right_password : sodium.pwhash_str_verify user.credentials.password request.password ≡ true

  accepts_iff :
      (c : Credentials)
      → (accepts sodium time request c ≡ true) ↔ (
          (c.type ≡ CredentialsType.password)
          × (verify_totp sodium.hmacsha512 time c.totp_key request.totp ≡ true)
          × (sodium.pwhash_str_verify c.password request.password ≡ true))
  unfolding accepts
  accepts_iff c = ground arith

  -- What the request admits of the user's credentials.
  abbrev Accepted : User → Type 0
  Accepted u = accepts sodium time request u.credentials ≡ true

  Accepted-LogsIn :
      (us : List User) (u : User) (id : ℕ)
      → Memᴰ u us
      → u.name ≡ request.name
      → u.user_id ≡ id
      → Accepted u
      → LogsIn us id
  Accepted-LogsIn us u id stored name same_id accepted =
      let (by_password, right_code, right_password) = (accepts_iff u.credentials).0 accepted in
      record {
        user = u;
        stored = stored;
        same_name = name;
        same_id = same_id;
        by_password = by_password;
        right_code = right_code;
        right_password = right_password;
      }

  LogsIn-Accepted : (us : List User) (id : ℕ) (l : LogsIn us id) → Accepted l.user
  LogsIn-Accepted us id l =
      (accepts_iff l.user.credentials).1 (l.by_password, l.right_code, l.right_password)

  login_password_sound :
      (us : List User) {id : ℕ} → login_password sodium time request us ≡ some id → LogsIn us id
  unfolding login_password
  login_password_sound [] h = cc
  login_password_sound (u ∷ us) {id} h = elim (Bool-cases (eq_str u.name request.name)) [
    | inr other ↦
        let l = login_password_sound us {id = id} (ground (arith, other)) in
        Accepted-LogsIn (u ∷ us) l.user id (Memᴰ.tail l.stored) l.same_name l.same_id
          (LogsIn-Accepted us id l)
    | inl same ↦ elim (Bool-cases (accepts sodium time request u.credentials)) [
      | inr no_entry ↦ absurd (ground (arith, same, no_entry))
      | inl entry ↦
          Accepted-LogsIn (u ∷ us) u id (Memᴰ.head refl) ((eq_str_iff u.name request.name).0 same)
            (ground (arith, same, entry)) entry
    ]
  ]

  login_password_full :
      (us : List User) {id : ℕ}
      → name_count request.name us ≤ 1
      → LogsIn us id
      → login_password sodium time request us ≡ some id
  unfolding login_password
  login_password_full [] once l = elim (l.stored) [ ]
  login_password_full (u ∷ us) {id} once l = elim (l.stored) [
    | Memᴰ.head e ↦
        let accepted : accepts sodium time request u.credentials ≡ true =
          ap (λ (x : User). accepts sodium time request x.credentials) (sym e)
          ∙ LogsIn-Accepted (u ∷ us) id l in
        let name : u.name ≡ request.name = ap (λ (x : User). x.name) (sym e) ∙ l.same_name in
        let id' : u.user_id ≡ id = ap (λ (x : User). x.user_id) (sym e) ∙ l.same_id in
        ground (arith, accepted, name, id', eq_str_iff u.name request.name)
    | Memᴰ.tail m ↦
        let counted = le-sum (has_name request.name) us m in
        let rest =
          login_password_full us {id = id} (omega arith) (
            Accepted-LogsIn us l.user id m l.same_name l.same_id (LogsIn-Accepted (u ∷ us) id l)) in
        ground (arith, counted, rest, eq_str_iff l.user.name request.name, l.same_name)
  ]

  -- Where no two users have the name of a request, it logs a user in exactly if the user has the
  -- name, and credentials of a password whose code, at the time, and hash it fits.
  pub login_password_iff :
      (us : List User) (id : ℕ)
      → name_count request.name us ≤ 1
      → (login_password sodium time request us ≡ some id) ↔ LogsIn us id
  login_password_iff us id once = (login_password_sound us, login_password_full us once)

  LogsIn-back :
      (us : List User) (user : ℕ) {id : ℕ}
      → id_count user us ≤ 1
      → LogsIn (remove_user user us) id
      → LogsIn us id × (id ≢ user)
  LogsIn-back us user {id} once l = (
    Accepted-LogsIn us l.user id (mem_of_remove_user user us l.stored) l.same_name l.same_id
        (LogsIn-Accepted (remove_user user us) id l),
    λ e. remove_user-ne user us once l.stored (l.same_id ∙ e),
  )

  pub login_password-ne_removed :
      (us : List User) (user : ℕ)
      → id_count user us ≤ 1
      → login_password sodium time request (remove_user user us) ≢ some user
  login_password-ne_removed us user once e =
      (LogsIn-back us user once (login_password_sound (remove_user user us) e)).1 refl

  LogsIn-forth :
      (us : List User) (user : ℕ) {id : ℕ}
      → id ≢ user
      → LogsIn us id
      → LogsIn (remove_user user us) id
  LogsIn-forth us user {id} other l =
      Accepted-LogsIn (remove_user user us) l.user id
        (mem_to_remove_user user us l.stored (λ e. other (sym l.same_id ∙ e))) l.same_name l.same_id
        (LogsIn-Accepted us id l)

  -- Removing a user locks out that user, and nobody else: whom a request logs in afterwards is whom it
  -- has logged in before, but for the one who is gone. No two users may have the name of the request
  -- or the identifier that is removed.
  pub login_password-remove_user :
      (us : List User) (user : ℕ)
      → name_count request.name us ≤ 1
      → id_count user us ≤ 1
      → login_password sodium time request (remove_user user us)
        ≡ (elim (login_password sodium time request us) [
          | none ↦ none
          | some id ↦ if id == user then none else some id
        ])
  login_password-remove_user us user once_name once_id =
      let login = login_password sodium time request in
      let once' = sum-remove_user-le (has_name request.name) user us in
      elim (Option-cases (login (remove_user user us))) [
        | inr (j, e') ↦
            let (before, other) =
              LogsIn-back us user once_id
                (login_password_sound (remove_user user us) {id = j} e') in
            ground (arith, e', other, login_password_full us {id = j} once_name before)
        | inl e' ↦ elim (Option-cases (login us)) [
          | inl e ↦ ground (arith, e, e')
          | inr (id, e) ↦ elim (ℕ_discrete id user) [
            | yes same ↦ ground (arith, e, e', same)
            | no other ↦
                let after = LogsIn-forth us user other (login_password_sound us {id = id} e) in
                let logs_in =
                  login_password_full (remove_user user us) {id = id} (omega arith) after in
                absurd (cc (e', logs_in))
          ]
        ]
      ]
