-- ===== src/SessionStorage/Access.antt =====
-- Who gets in by src/auth/SessionStorage.cpp.
use mathlib.Core.Path.{subst}
use mathlib.Core.Option.{some-injective}
use mathlib.Core.List.{Memᴰ}
use teilpunkt.Base.{
  ℕ, ◌≤◌, ◌≡◌, ◌↔◌, refl, sym, ap, ◌∙◌, Bool, true, false, Option, none, some, List, [], Str,
  eq_str, eq_str_iff, Option-cases, Bool-cases, inl, inr, arith, if◌then◌else◌,
}
use teilpunkt.SessionStorage.{
  SessionMetaData, Session, UserSessionData, erase_if, is_expired, is_valid, same_meta_data,
  find_session, get_user_session_data, auth_session, get,
}
use teilpunkt.SessionStorage.Erasing.{
  mem_of_erase_if, mem_to_erase_if, find_session-found, find_session-none,
}

-- No two sessions have the same token.
abbrev pub HasUniqueTokens : List Session → Type 0
HasUniqueTokens sessions =
    (s t : Session) → Memᴰ s sessions → Memᴰ t sessions → s.token ≡ t.token → s ≡ t

-- A session of the list that admits a token, with the data of a request, at a time.
pub record Admits (now : ℕ) (token : Str) (meta_data : SessionMetaData) (sessions : List Session)
    : Type 0 where
  pub session : Session
  pub stored : Memᴰ session sessions
  pub same_token : session.token ≡ token
  pub same_data : session.meta_data ≡ meta_data
  pub unexpired : now ≤ session.expiration

same_meta_data_iff : (a b : SessionMetaData) → (same_meta_data a b ≡ true) ↔ (a ≡ b)
unfolding same_meta_data
same_meta_data_iff a b =
    ground
      (arith, eq_str_iff a.user_agent b.user_agent, eq_str_iff a.remote_address b.remote_address)

pub is_valid_iff :
    (now : ℕ) (meta_data : SessionMetaData) (s : Session)
    → (is_valid now meta_data s ≡ true) ↔ ((s.meta_data ≡ meta_data) × (now ≤ s.expiration))
unfolding is_valid
is_valid_iff now meta_data s = ground (arith, same_meta_data_iff s.meta_data meta_data)

expired_iff : (now : ℕ) (s : Session) → (is_expired now s ≡ false) ↔ (now ≤ s.expiration)
unfolding is_expired
expired_iff now s = ground arith

-- Where the search of `get` begins, and the test that it makes.
module _ (now : ℕ) (token : Str) (meta_data : SessionMetaData) (sessions : List Session) where
  abbrev live : List Session
  live = erase_if (is_expired now) sessions

  abbrev has_token : Session → Bool
  has_token s = eq_str s.token token

  auth_session-none :
      find_session has_token live ≡ none → (auth_session now token meta_data sessions).1 ≡ false
  unfolding auth_session
  auth_session-none missing = rw (missing, auth_session) refl

  auth_session-some :
      (i : ℕ) (s : Session)
      → find_session has_token live ≡ some (i, s)
      → (auth_session now token meta_data sessions).1 ≡ is_valid now meta_data s
  unfolding auth_session
  auth_session-some i s found = elim (Bool-cases (is_valid now meta_data s)) [
    | inl valid ↦ rw (found, valid, auth_session) refl
    | inr other ↦ rw (found, other, auth_session) refl
  ]

  found-Admits :
      (i : ℕ) (s : Session)
      → find_session has_token live ≡ some (i, s)
      → is_valid now meta_data s ≡ true
      → Admits now token meta_data sessions
  found-Admits i s found valid =
      let (m, e) = find_session-found has_token live (i, s) found in
      let (agrees, in_time) = (is_valid_iff now meta_data s).0 valid in
      record {
        session = s;
        stored = (mem_of_erase_if (is_expired now) sessions s m).0;
        same_token = (eq_str_iff s.token token).0 e;
        same_data = agrees;
        unexpired = in_time;
      }

  auth_session_sound :
      (auth_session now token meta_data sessions).1 ≡ true → Admits now token meta_data sessions
  auth_session_sound h = elim (Option-cases (find_session has_token live)) [
    | inl missing ↦ absurd (cc (h, auth_session-none missing))
    | inr ((i, s), found) ↦ found-Admits i s found (sym (auth_session-some i s found) ∙ h)
  ]

  auth_session_complete :
      HasUniqueTokens sessions
      → Admits now token meta_data sessions
      → (auth_session now token meta_data sessions).1 ≡ true
  auth_session_complete unique a =
      let s = a.session in
      let m : Memᴰ s live =
        mem_to_erase_if (is_expired now) sessions s a.stored ((expired_iff now s).1 a.unexpired) in
      elim (Option-cases (find_session has_token live)) [
        | inl missing ↦ absurd (
            cc (
              find_session-none has_token live s missing m,
              (eq_str_iff s.token token).1 a.same_token,
            ))
        | inr ((i, t), found) ↦
            let (m', e) = find_session-found has_token live (i, t) found in
            let same : t ≡ s =
              unique t s (mem_of_erase_if (is_expired now) sessions t m').0 a.stored
                ((eq_str_iff t.token token).0 e ∙ sym a.same_token) in
            auth_session-some i t found
            ∙ (is_valid_iff now meta_data t).1 (
              ap (λ r. r.meta_data) same ∙ a.same_data,
              subst (λ r. now ≤ r.expiration) (sym same) a.unexpired,
            )
      ]

get-none :
    (now lookup : ℕ) (token : Str) (meta_data : SessionMetaData) (storage : List UserSessionData)
    → get_user_session_data lookup storage ≡ none
    → (get now lookup token meta_data storage).1 ≡ none
unfolding get
get-none now lookup token meta_data storage missing = rw (missing, get) refl

get-some :
    (now lookup : ℕ) (token : Str) (meta_data : SessionMetaData) (storage : List UserSessionData)
    {sessions : List Session}
    → get_user_session_data lookup storage ≡ some sessions
    → (get now lookup token meta_data storage).1
      ≡ (if (auth_session now token meta_data sessions).1 then some lookup else none)
unfolding get
get-some now lookup token meta_data storage present = rw (present, get) refl

-- The sessions of a user, none if there is no entry.
abbrev pub sessions_of : ℕ → List UserSessionData → List Session
sessions_of user storage = elim (get_user_session_data user storage) [
  | none ↦ []
  | some sessions ↦ sessions
]

-- Where a user's sessions have different tokens, a request gets in as that user, and as no other,
-- exactly if one of the user's sessions has its token and its data, the user agent and the address,
-- and has not expired.
pub get_iff :
    (now lookup : ℕ) (token : Str) (meta_data : SessionMetaData) (storage : List UserSessionData)
    (user : ℕ)
    → HasUniqueTokens (sessions_of lookup storage)
    → ((get now lookup token meta_data storage).1 ≡ some user)
      ↔ ((user ≡ lookup) × Admits now token meta_data (sessions_of lookup storage))
get_iff now lookup token meta_data storage user unique =
    elim (Option-cases (get_user_session_data lookup storage)) [
      | inl missing ↦
          let nobody = get-none now lookup token meta_data storage missing in
          (λ h. absurd (cc (h, nobody)), λ (e, a). absurd (no_session missing a))
      | inr (sessions, present) ↦
          let answer = get-some now lookup token meta_data storage present in
          let same : sessions_of lookup storage ≡ sessions = rw (present, sessions_of) refl in
          (
            λ h. elim (Bool-cases (auth_session now token meta_data sessions).1) [
              | inl found ↦ (
                some-injective _ _ (sym h ∙ answer ∙ ap answered found),
                subst (Admits now token meta_data) (sym same)
                    (auth_session_sound now token meta_data sessions found),
              )
              | inr refused ↦ absurd (cc (sym h ∙ answer ∙ ap answered refused))
            ],
            λ (e, a).
                let found =
                  auth_session_complete now token meta_data sessions
                    (subst HasUniqueTokens same unique)
                    (subst (Admits now token meta_data) same a) in
                answer ∙ ap answered found ∙ ap some (sym e),
          )
    ]
  where
    answered : Bool → Option ℕ
    answered b = if b then some lookup else none

    no_session :
        get_user_session_data lookup storage ≡ none
        → Admits now token meta_data (sessions_of lookup storage)
        → ⊥
    no_session missing a =
        let empty : sessions_of lookup storage ≡ [] = rw (missing, sessions_of) refl in
        elim (subst (λ ss. Memᴰ a.session ss) empty a.stored) [ ]
