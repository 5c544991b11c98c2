-- ===== src/SessionStorage/Bounds.antt =====
-- How many sessions src/auth/SessionStorage.cpp keeps, whatever the requests are.
use mathlib.Core.Path.{subst}
use mathlib.Core.Option.{some-injective}
use teilpunkt.Base.{
  ℕ, ◌≤◌, ◌≡◌, sym, ap, ◌∙◌, some, List, [], ◌∷◌, length, length-append, Str, eq_str, Option-cases,
  Bool-cases, inl, inr, arith, ◌==◌, All, All-append,
}
use teilpunkt.SessionStorage.{
  SessionMetaData, Session, UserSessionData, Config, erase_if, is_expired, is_valid, find_session,
  get_user_session_data, set_sessions, get, add, remove, add_session, auth_session, remove_session,
  new_session,
}
use teilpunkt.SessionStorage.Erasing.{length-erase_if, length-erase_index}
use teilpunkt.SessionStorage.Adding.{add_session-elim, get_here, get_there, set_here, set_there}

-- The operations that change the storage.
pub data Operation : Type 0 where
  adding : (now : ℕ) (drawn : Str) (user : ℕ) (meta_data : SessionMetaData) → Operation
  getting : (now lookup : ℕ) (token : Str) (meta_data : SessionMetaData) → Operation
  removing : (user creation : ℕ) → Operation

unfoldable pub operate : Config → Operation → List UserSessionData → List UserSessionData
unfolding add get remove
operate config (adding now drawn user meta_data) storage =
    (add now config drawn user meta_data storage).0
operate config (getting now lookup token meta_data) storage =
    (get now lookup token meta_data storage).0
operate config (removing user creation) storage = (remove user creation storage).0

unfoldable pub run : Config → List Operation → List UserSessionData → List UserSessionData
unfolding operate
run config [] storage = storage
run config (o ∷ os) storage = run config os (operate config o storage)

-- No user has more sessions than are allowed.
abbrev pub WithinLimit : Config → List UserSessionData → Type 0
WithinLimit config = All (λ d. length d.sessions ≤ config.user_max_allowed_sessions)

length-auth_session :
    (now : ℕ) (token : Str) (meta_data : SessionMetaData) (sessions : List Session)
    → length (auth_session now token meta_data sessions).0 ≤ length sessions
unfolding auth_session
length-auth_session now token meta_data sessions =
    let live = erase_if (is_expired now) sessions in
    elim (Option-cases (find_session (λ s. eq_str s.token token) live)) [
      | inl missing ↦ rw (missing, auth_session) (length-erase_if (is_expired now) sessions)
      | inr ((i, s), found) ↦ elim (Bool-cases (is_valid now meta_data s)) [
        | inl valid ↦ rw (found, valid, auth_session) (length-erase_if (is_expired now) sessions)
        | inr other ↦
            rw (found, other, auth_session)
              (omega (arith, length-erase_index i live, length-erase_if (is_expired now) sessions))
      ]
    ]

length-remove_session :
    (creation : ℕ) (sessions : List Session)
    → length (remove_session creation sessions).0 ≤ length sessions
unfolding remove_session
length-remove_session creation sessions =
    elim (Option-cases (find_session (λ s. s.creation == creation) sessions)) [
      | inl missing ↦ rw (missing, remove_session) (omega arith)
      | inr ((i, s), found) ↦ rw (found, remove_session) (length-erase_index i sessions)
    ]

length-add_session :
    (now : ℕ) (config : Config) (drawn : Str) (meta_data : SessionMetaData)
    (sessions : List Session)
    → length sessions ≤ config.user_max_allowed_sessions
    → length (add_session now config drawn meta_data sessions).0 ≤ config.user_max_allowed_sessions
length-add_session now config drawn meta_data sessions within =
    let live = erase_if (is_expired now) sessions in
    let shorter = length-erase_if (is_expired now) sessions in
    let fits : length live ≤ config.user_max_allowed_sessions = omega (arith, shorter, within) in
    add_session-elim now config drawn meta_data sessions
      (λ r. length r.0 ≤ config.user_max_allowed_sessions) (λ i s found. fits) fits
      (λ room.
        ground (arith, room, length-append live (new_session now config drawn meta_data ∷ [])))

get_user_session_data-WithinLimit :
    (config : Config) (user : ℕ) (storage : List UserSessionData) {sessions : List Session}
    → WithinLimit config storage
    → get_user_session_data user storage ≡ some sessions
    → length sessions ≤ config.user_max_allowed_sessions
get_user_session_data-WithinLimit config user [] within present = unfold get_user_session_data in cc
get_user_session_data-WithinLimit config user (d ∷ ds) (w, within) present =
    elim (Bool-cases (d.user == user)) [
      | inl same ↦
          let e = some-injective _ _ (sym present ∙ get_here user d ds same) in
          omega (arith, ap length e)
      | inr other ↦
          get_user_session_data-WithinLimit config user ds within
            (sym (get_there user d ds other) ∙ present)
    ]

set_sessions-WithinLimit :
    (config : Config) (user : ℕ) (new : List Session) (storage : List UserSessionData)
    → length new ≤ config.user_max_allowed_sessions
    → WithinLimit config storage
    → WithinLimit config (set_sessions user new storage)
set_sessions-WithinLimit config user new [] fits within = unfold set_sessions in tt
set_sessions-WithinLimit config user new (d ∷ ds) fits (w, within) =
    elim (Bool-cases (d.user == user)) [
      | inl same ↦ subst (WithinLimit config) (sym (set_here user d ds new same)) (fits, within)
      | inr other ↦
          subst (WithinLimit config) (sym (set_there user d ds new other))
            (w, set_sessions-WithinLimit config user new ds fits within)
    ]

operate-WithinLimit :
    (config : Config) (o : Operation) (storage : List UserSessionData)
    → WithinLimit config storage
    → WithinLimit config (operate config o storage)
unfolding operate
operate-WithinLimit config (adding now drawn user meta_data) storage within =
    elim (Option-cases (get_user_session_data user storage)) [
      | inl missing ↦
          rw (missing, operate, add)
            (All-append _ storage _ within
              (length-add_session now config drawn meta_data [] (omega arith), tt))
      | inr (sessions, present) ↦
          let few = get_user_session_data-WithinLimit config user storage within present in
          rw (present, operate, add)
            (set_sessions-WithinLimit config user _ storage
              (length-add_session now config drawn meta_data sessions few) within)
    ]
operate-WithinLimit config (getting now lookup token meta_data) storage within =
    elim (Option-cases (get_user_session_data lookup storage)) [
      | inl missing ↦ rw (missing, operate, get) within
      | inr (sessions, present) ↦
          let few = get_user_session_data-WithinLimit config lookup storage within present in
          rw (present, operate, get)
            (set_sessions-WithinLimit config lookup _ storage
              (omega (arith, few, length-auth_session now token meta_data sessions)) within)
    ]
operate-WithinLimit config (removing user creation) storage within =
    elim (Option-cases (get_user_session_data user storage)) [
      | inl missing ↦ rw (missing, operate, remove) within
      | inr (sessions, present) ↦
          let few = get_user_session_data-WithinLimit config user storage within present in
          rw (present, operate, remove)
            (set_sessions-WithinLimit config user _ storage
              (omega (arith, few, length-remove_session creation sessions)) within)
    ]

run-keeps-WithinLimit :
    (config : Config) (operations : List Operation) (storage : List UserSessionData)
    → WithinLimit config storage
    → WithinLimit config (run config operations storage)
unfolding run
run-keeps-WithinLimit config [] storage within = within
run-keeps-WithinLimit config (o ∷ os) storage within =
    run-keeps-WithinLimit config os (operate config o storage)
      (operate-WithinLimit config o storage within)

-- Whatever the requests are, from an empty storage: no user ever has more sessions than the configuration
-- allows.
pub run-WithinLimit :
    (config : Config) (operations : List Operation) → WithinLimit config (run config operations [])
run-WithinLimit config operations = run-keeps-WithinLimit config operations [] tt
