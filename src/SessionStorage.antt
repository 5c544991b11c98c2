-- ===== src/SessionStorage.antt =====
-- src/auth/SessionStorage.cpp: the sessions of the users who have logged in, and the parts of
-- SecureList that it uses. What an operation reads of the clock, the configuration and the random
-- generator is an argument; an operation takes no time. Times are in nanoseconds. Tokens are texts:
-- their buffers hold nothing but zeros behind them.
pub mod Erasing
pub mod Access
pub mod Adding
pub mod Bounds
mod Tests
use Prim.Native.Nat.{◌^◌}
use teilpunkt.Base.{
  ℕ, zero, suc, ◌+◌, ◌*◌, ◌%◌, ◌==◌, ltb, leb, Str, eq_str, Bool, true, false, not, ◌&&◌, Option,
  none, some, List, [], ◌∷◌, ◌++◌, map, length, get_last?, drop_last, if◌then◌else◌,
}

pub record SessionMetaData : Type 0 where
  pub user_agent : Str
  pub remote_address : Str

pub record Session : Type 0 where
  pub token : Str
  pub meta_data : SessionMetaData
  pub creation : ℕ
  pub expiration : ℕ

-- A `UserID` is a number.
pub record UserSessionData : Type 0 where
  pub user : ℕ
  pub sessions : List Session

pub record SessionInfo : Type 0 where
  pub user_agent : Str
  pub creation_unix : ℕ
  pub expiration_unix : ℕ

pub record Config : Type 0 where
  pub user_session_expiration_secs : ℕ
  pub user_max_allowed_sessions : ℕ

-- `SecureList::eraseIndex` at the first place of what is left of the list: the last element takes it.
unfoldable pub erase_first : {A : Type 0} → List A → List A
erase_first xs = elim (get_last? xs) [ none ↦ [] | some last ↦ last ∷ drop_last xs ]

-- `SecureList::eraseIndex`
unfoldable pub erase_index : {A : Type 0} → ℕ → List A → List A
unfolding erase_first
erase_index i [] = []
erase_index zero (x ∷ xs) = erase_first xs
erase_index (suc i) (x ∷ xs) = x ∷ erase_index i xs

-- `SecureList::erase_if`: an element that took the place of an erased one is looked at next. A round
-- leaves one element less to look at, so the length of the list is rounds enough.
unfoldable pub erase_rounds : {A : Type 0} → ℕ → (A → Bool) → List A → List A
unfolding erase_first
erase_rounds zero p xs = xs
erase_rounds (suc n) p [] = []
erase_rounds (suc n) p (x ∷ xs) = elim (p x) [
  | true ↦ erase_rounds n p (erase_first xs)
  | false ↦ x ∷ erase_rounds n p xs
]

unfoldable pub erase_if : {A : Type 0} → (A → Bool) → List A → List A
unfolding erase_rounds
erase_if p xs = erase_rounds (length xs) p xs

unfoldable pub same_meta_data : SessionMetaData → SessionMetaData → Bool
unfolding eq_str
same_meta_data a b = eq_str a.user_agent b.user_agent && eq_str a.remote_address b.remote_address

unfoldable pub is_expired : ℕ → Session → Bool
is_expired now s = ltb s.expiration now

unfoldable pub is_valid : ℕ → SessionMetaData → Session → Bool
unfolding same_meta_data
is_valid now meta_data s =
    if not (same_meta_data s.meta_data meta_data)
    then false
    else if ltb s.expiration now
    then false
    else true

-- `getUserSessionData`, and the change of what it points to.
unfoldable pub get_user_session_data : ℕ → List UserSessionData → Option (List Session)
get_user_session_data user [] = none
get_user_session_data user (d ∷ ds) =
    let rest = get_user_session_data user ds in if d.user == user then some d.sessions else rest

unfoldable pub set_sessions : ℕ → List Session → List UserSessionData → List UserSessionData
set_sessions user sessions [] = []
set_sessions user sessions (d ∷ ds) =
    let rest = set_sessions user sessions ds in
    if d.user == user then record d { sessions = sessions } ∷ ds else d ∷ rest

-- The first session that passes a test, and its place.
unfoldable pub find_session : (Session → Bool) → List Session → Option (ℕ × Session)
find_session p [] = none
find_session p (s ∷ ss) =
    let rest = find_session p ss in
    if p s then some (0, s) else elim rest [ none ↦ none | some (i, found) ↦ some (suc i, found) ]

-- The constructor of a session, with the token that was drawn.
unfoldable pub new_session : ℕ → Config → Str → SessionMetaData → Session
new_session now config drawn meta_data = record {
  token = drawn;
  meta_data = meta_data;
  creation = now;
  expiration = (now + config.user_session_expiration_secs * 1000000000) % 2 ^ 64;
}

-- `add` on the sessions of the user: those that stay, and the token if there is one.
unfoldable pub add_session :
    ℕ → Config → Str → SessionMetaData → List Session → List Session × Option Str
unfolding erase_if is_expired is_valid find_session new_session
add_session now config drawn meta_data sessions =
    let session_list = erase_if (is_expired now) sessions in
    elim (find_session (is_valid now meta_data) session_list) [
      | some (i, session) ↦ (session_list, some session.token)
      | none ↦
          if leb config.user_max_allowed_sessions (length session_list)
          then (session_list, none)
          else (session_list ++ new_session now config drawn meta_data ∷ [], some drawn)
    ]

-- `get` on the sessions of the user: those that stay, and whether one was found.
unfoldable pub auth_session : ℕ → Str → SessionMetaData → List Session → List Session × Bool
unfolding erase_if erase_index is_expired is_valid find_session eq_str
auth_session now token meta_data sessions =
    let session_list = erase_if (is_expired now) sessions in
    elim (find_session (λ s. eq_str s.token token) session_list) [
      | none ↦ (session_list, false)
      | some (i, session) ↦
          if is_valid now meta_data session
          then (session_list, true)
          else (erase_index i session_list, false)
    ]

-- `remove` on the sessions of the user
unfoldable pub remove_session : ℕ → List Session → List Session × Bool
unfolding erase_index find_session
remove_session creation sessions = elim (find_session (λ s. s.creation == creation) sessions) [
  | none ↦ (sessions, false)
  | some (i, session) ↦ (erase_index i sessions, true)
]

unfoldable pub add :
    ℕ
    → Config
    → Str
    → ℕ
    → SessionMetaData
    → List UserSessionData
    → List UserSessionData × Option Str
unfolding get_user_session_data set_sessions add_session
add now config drawn user meta_data storage = elim (get_user_session_data user storage) [
  | none ↦
      let (sessions, token) = add_session now config drawn meta_data [] in
      (storage ++ record { user = user; sessions = sessions } ∷ [], token)
  | some old ↦
      let (sessions, token) = add_session now config drawn meta_data old in
      (set_sessions user sessions storage, token)
]

-- The user is returned where one was found.
unfoldable pub get :
    ℕ → ℕ → Str → SessionMetaData → List UserSessionData → List UserSessionData × Option ℕ
unfolding get_user_session_data set_sessions auth_session
get now lookup token meta_data storage = elim (get_user_session_data lookup storage) [
  | none ↦ (storage, none)
  | some old ↦
      let (sessions, found) = auth_session now token meta_data old in
      (set_sessions lookup sessions storage, if found then some lookup else none)
]

unfoldable pub remove : ℕ → ℕ → List UserSessionData → List UserSessionData × Bool
unfolding get_user_session_data set_sessions remove_session
remove user creation storage = elim (get_user_session_data user storage) [
  | none ↦ (storage, false)
  | some old ↦
      let (sessions, removed) = remove_session creation old in
      (set_sessions user sessions storage, removed)
]

-- `getInfo`, which changes nothing.
unfoldable pub get_info : ℕ → List UserSessionData → Option (List SessionInfo)
unfolding get_user_session_data
get_info user storage = elim (get_user_session_data user storage) [
  | none ↦ none
  | some sessions ↦ some (
      map
        (λ (s : Session). record {
          user_agent = s.meta_data.user_agent;
          creation_unix = s.creation;
          expiration_unix = s.expiration;
        })
        sessions)
]
