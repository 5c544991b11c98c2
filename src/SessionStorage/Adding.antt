-- ===== src/SessionStorage/Adding.antt =====
-- A log-in and the requests that follow it, by src/auth/SessionStorage.cpp.
use mathlib.Core.Path.{subst}
use mathlib.Core.Option.{some-injective}
use mathlib.Core.List.{Memᴰ}
use mathlib.Core.List.Memᴰ
use Prim.Native.Nat.{◌^◌}
use teilpunkt.Base.{
  ℕ, ◌+◌, ◌*◌, ◌<◌, ◌≤◌, ◌≡◌, ◌≢◌, refl, sym, ap, ◌∙◌, true, false, Option, none, some, List, [],
  ◌∷◌, ◌++◌, length, leb, Str, Option-cases, Bool-cases, inl, inr, arith, ◌==◌,
}
use teilpunkt.SessionStorage.{
  SessionMetaData, Session, UserSessionData, Config, erase_if, is_expired, is_valid, find_session,
  get_user_session_data, set_sessions, get, add, add_session, new_session,
}
use teilpunkt.SessionStorage.Erasing.{mem_of_erase_if, find_session-found}
use teilpunkt.SessionStorage.Access.{HasUniqueTokens, Admits, is_valid_iff, sessions_of, get_iff}

-- The time is none after a token expires: a stored one expires with its session, any other as given.
abbrev pub LastsUntil : ℕ → ℕ → Str → List Session → Type 0
LastsUntil time expiration token sessions =
    ((s : Session) → Memᴰ s sessions → s.token ≡ token → time ≤ s.expiration)
    × (((s : Session) → Memᴰ s sessions → s.token ≢ token) → time ≤ expiration)

module _ (user : ℕ) (d : UserSessionData) (ds : List UserSessionData) where
  pub get_here : (d.user == user) ≡ true → get_user_session_data user (d ∷ ds) ≡ some d.sessions
  unfolding get_user_session_data
  get_here e = ground (arith, e)

  pub get_there :
      (d.user == user) ≡ false → get_user_session_data user (d ∷ ds) ≡ get_user_session_data user ds
  unfolding get_user_session_data
  get_there e = ground (arith, e)

  pub set_here :
      (new : List Session)
      → (d.user == user) ≡ true
      → set_sessions user new (d ∷ ds) ≡ record d { sessions = new } ∷ ds
  unfolding set_sessions
  set_here new e = ground (arith, e)

  pub set_there :
      (new : List Session)
      → (d.user == user) ≡ false
      → set_sessions user new (d ∷ ds) ≡ d ∷ set_sessions user new ds
  unfolding set_sessions
  set_there new e = ground (arith, e)

get_user_session_data-set_sessions :
    (user : ℕ) (new : List Session) (storage : List UserSessionData) {old : List Session}
    → get_user_session_data user storage ≡ some old
    → get_user_session_data user (set_sessions user new storage) ≡ some new
get_user_session_data-set_sessions user new [] e = unfold get_user_session_data in cc
get_user_session_data-set_sessions user new (d ∷ ds) e = elim (Bool-cases (d.user == user)) [
  | inl same ↦
      ap (get_user_session_data user) (set_here user d ds new same)
      ∙ get_here user (record d { sessions = new }) ds same
  | inr other ↦
      ap (get_user_session_data user) (set_there user d ds new other)
      ∙ get_there user d (set_sessions user new ds) other
      ∙ get_user_session_data-set_sessions user new ds (sym (get_there user d ds other) ∙ e)
]

get_user_session_data-append :
    (user : ℕ) (new : List Session) (storage : List UserSessionData)
    → get_user_session_data user storage ≡ none
    → get_user_session_data user (storage ++ record { user = user; sessions = new } ∷ []) ≡ some new
unfolding get_user_session_data
get_user_session_data-append user new [] e = ground arith
get_user_session_data-append user new (d ∷ ds) e =
    ground (arith, get_user_session_data-append user new ds)

-- What `add` does for a user is what `add_session` does with the user's sessions.
add-eq-add_session :
    (now : ℕ) (config : Config) (drawn : Str) (user : ℕ) (meta_data : SessionMetaData)
    (storage : List UserSessionData)
    → let added = add now config drawn user meta_data storage in
      let result = add_session now config drawn meta_data (sessions_of user storage) in
      (sessions_of user added.0 ≡ result.0) × (added.1 ≡ result.1)
unfolding add
add-eq-add_session now config drawn user meta_data storage =
    elim (Option-cases (get_user_session_data user storage)) [
      | inl missing ↦
          let result = add_session now config drawn meta_data [] in
          let after = get_user_session_data-append user result.0 storage missing in
          rw (missing, add, sessions_of) (rw (after) refl, refl)
      | inr (old, present) ↦
          let result = add_session now config drawn meta_data old in
          let after = get_user_session_data-set_sessions user result.0 storage present in
          rw (present, add, sessions_of) (rw (after) refl, refl)
    ]

module _ (now : ℕ) (config : Config) (drawn : Str) (meta_data : SessionMetaData)
    (sessions : List Session) where
  abbrev live : List Session
  live = erase_if (is_expired now) sessions

  abbrev fresh_session : Session
  fresh_session = new_session now config drawn meta_data

  add_session_old :
      (i : ℕ) (s : Session)
      → find_session (is_valid now meta_data) live ≡ some (i, s)
      → add_session now config drawn meta_data sessions ≡ (live, some s.token)
  unfolding add_session
  add_session_old i s found = rw (found, add_session) refl

  add_session_full :
      find_session (is_valid now meta_data) live ≡ none
      → leb config.user_max_allowed_sessions (length live) ≡ true
      → add_session now config drawn meta_data sessions ≡ (live, none)
  unfolding add_session
  add_session_full missing full = rw (missing, full, add_session) refl

  add_session_new :
      find_session (is_valid now meta_data) live ≡ none
      → leb config.user_max_allowed_sessions (length live) ≡ false
      → add_session now config drawn meta_data sessions ≡ (live ++ fresh_session ∷ [], some drawn)
  unfolding add_session
  add_session_new missing room = rw (missing, room, add_session) refl

  -- A result that is true for the old session is true whichever of the three it is.
  pub add_session-elim :
      (P : List Session × Option Str → Type 0)
      → ((i : ℕ) (s : Session)
          → find_session (is_valid now meta_data) live ≡ some (i, s)
          → P (live, some s.token))
      → P (live, none)
      → (leb config.user_max_allowed_sessions (length live) ≡ false
          → P (live ++ fresh_session ∷ [], some drawn))
      → P (add_session now config drawn meta_data sessions)
  add_session-elim P old full new =
      elim (Option-cases (find_session (is_valid now meta_data) live)) [
        | inl missing ↦ elim (Bool-cases (leb config.user_max_allowed_sessions (length live))) [
          | inl no_room ↦ subst P (sym (add_session_full missing no_room)) full
          | inr room ↦ subst P (sym (add_session_new missing room)) (new room)
        ]
        | inr ((i, s), found) ↦ subst P (sym (add_session_old i s found)) (old i s found)
      ]

  -- A token that was drawn now, by no session of the user so far.
  module _ (unique : HasUniqueTokens sessions)
      (drawn_new : (s : Session) → Memᴰ s sessions → s.token ≢ drawn)
      (fits : now + config.user_session_expiration_secs * 1000000000 < 2 ^ 64) where
    live-HasUniqueTokens : HasUniqueTokens live
    live-HasUniqueTokens s t m m' e =
        unique s t (mem_of_erase_if (is_expired now) sessions s m).0
          (mem_of_erase_if (is_expired now) sessions t m').0 e

    not_drawn : (s : Session) → Memᴰ s live → s.token ≢ drawn
    not_drawn s m = drawn_new s (mem_of_erase_if (is_expired now) sessions s m).0

    more-HasUniqueTokens : HasUniqueTokens (live ++ fresh_session ∷ [])
    unfolding new_session
    more-HasUniqueTokens s t m m' e = elim (Memᴰ.append_cases live m) [
      | inl l ↦ elim (Memᴰ.append_cases live m') [
        | inl l' ↦ live-HasUniqueTokens s t l l' e
        | inr r' ↦ absurd (not_drawn s l (e ∙ ap (λ r. r.token) (Memᴰ.eq_of_singleton r')))
      ]
      | inr r ↦ elim (Memᴰ.append_cases live m') [
        | inl l' ↦ absurd (not_drawn t l' (sym e ∙ ap (λ q. q.token) (Memᴰ.eq_of_singleton r)))
        | inr r' ↦ Memᴰ.eq_of_singleton r ∙ sym (Memᴰ.eq_of_singleton r')
      ]
    ]

    abbrev IsAdmitted : List Session × Option Str → Type 0
    IsAdmitted r =
        (time : ℕ) (token : Str)
        → r.1 ≡ some token
        → LastsUntil time (now + config.user_session_expiration_secs * 1000000000) token sessions
        → HasUniqueTokens r.0 × Admits time token meta_data r.0

    add_session-IsAdmitted : IsAdmitted (add_session now config drawn meta_data sessions)
    add_session-IsAdmitted = add_session-elim IsAdmitted old (λ time token e. cc) new
      where
        old :
            (i : ℕ) (s : Session)
            → find_session (is_valid now meta_data) live ≡ some (i, s)
            → IsAdmitted (live, some s.token)
        old i s found time token e lasts =
            let (m, valid) = find_session-found (is_valid now meta_data) live (i, s) found in
            let (agrees, in_time) = (is_valid_iff now meta_data s).0 valid in
            (
              live-HasUniqueTokens,
              record {
                session = s;
                stored = m;
                same_token = some-injective _ _ e;
                same_data = agrees;
                unexpired =
                    lasts.0 s (mem_of_erase_if (is_expired now) sessions s m).0
                      (some-injective _ _ e);
              },
            )

        new :
            leb config.user_max_allowed_sessions (length live) ≡ false
            → IsAdmitted (live ++ fresh_session ∷ [], some drawn)
        new room time token e lasts = (
          more-HasUniqueTokens,
          unfold new_session in
              record {
                session = fresh_session;
                stored = Memᴰ.append_right live (Memᴰ.head refl);
                same_token = some-injective _ _ e;
                same_data = refl;
                unexpired = omega (
                  arith,
                  fits,
                  lasts.1 (λ s m same. drawn_new s m (same ∙ sym (some-injective _ _ e))),
                );
              },
        )

-- When a log-in has added a session, or found one to use again, the token that it returns gets the
-- same client in as that user, at any time until it expires: the token of a stored session with that
-- session, a new one as long after the log-in as the configuration says. The token that is drawn is
-- taken to be none of the user's, whose tokens are different; and the time of the expiration to fit
-- into 64 bits.
pub get-add :
    (now time : ℕ) (config : Config) (drawn : Str) (user : ℕ) (meta_data : SessionMetaData)
    (storage : List UserSessionData) {token : Str}
    → HasUniqueTokens (sessions_of user storage)
    → ((s : Session) → Memᴰ s (sessions_of user storage) → s.token ≢ drawn)
    → now + config.user_session_expiration_secs * 1000000000 < 2 ^ 64
    → (add now config drawn user meta_data storage).1 ≡ some token
    → LastsUntil time
        (now + config.user_session_expiration_secs * 1000000000)
        token
        (sessions_of user storage)
    → (get time user token meta_data (add now config drawn user meta_data storage).0).1 ≡ some user
get-add now time config drawn user meta_data storage {token} unique drawn_new fits added lasts =
    let (after, returned) = add-eq-add_session now config drawn user meta_data storage in
    let (unique', a) =
      add_session-IsAdmitted now config drawn meta_data (sessions_of user storage) unique drawn_new
        fits time token (sym returned ∙ added) lasts in
    (get_iff time user token meta_data (add now config drawn user meta_data storage).0 user
        (subst HasUniqueTokens (sym after) unique')).1
      (refl, subst (Admits time token meta_data) (sym after) a)
