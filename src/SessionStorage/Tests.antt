-- ===== src/SessionStorage/Tests.antt =====
-- The storage of sessions with two users.
use mathlib.Core.List.{Memᴰ}
use mathlib.Core.List.Memᴰ
use teilpunkt.Base.{
  ℕ, ◌≡◌, ◌↔◌, refl, sym, ap, ◌∙◌, ◌==◌, none, some, List, [], ◌∷◌, str, eq_str, arith,
}
use teilpunkt.SessionStorage.{
  SessionMetaData, Session, UserSessionData, Config, get_user_session_data, add, get, get_info,
  erase_if,
}
use teilpunkt.SessionStorage.Access.{HasUniqueTokens, Admits, sessions_of, get_iff}
use teilpunkt.SessionStorage.Adding.{get-add}
use teilpunkt.SessionStorage.Bounds.{adding, removing, run, WithinLimit, run-WithinLimit}

abbrev config : Config
config = record { user_session_expiration_secs = 1; user_max_allowed_sessions = 1 }

abbrev firefox : SessionMetaData
firefox = record { user_agent = str "firefox"; remote_address = str "h1" }

abbrev chrome : SessionMetaData
chrome = record { user_agent = str "chrome"; remote_address = str "h1" }

abbrev session : Session
session = record { token = str "t1"; meta_data = firefox; creation = 5; expiration = 1000000005 }

abbrev storage : List UserSessionData
storage = record { user = 7; sessions = session ∷ [] } ∷ []

stored_session : (s : Session) → Memᴰ s (sessions_of 7 storage) → s ≡ session
unfolding get_user_session_data
stored_session s m = Memᴰ.eq_of_singleton m

storage-HasUniqueTokens : HasUniqueTokens (sessions_of 7 storage)
storage-HasUniqueTokens s t m m' e = stored_session s m ∙ sym (stored_session t m')

abbrev visitor : ℕ
visitor = 7

get_iff_example :
    ((get 9 7 (str "t1") firefox storage).1 ≡ some 7)
    ↔ ((visitor ≡ 7) × Admits 9 (str "t1") firefox (sessions_of 7 storage))
get_iff_example = get_iff 9 7 (str "t1") firefox storage 7 storage-HasUniqueTokens

-- The session that is stored serves until it expires, here a log-in at 9 and a request at that time.
get-add_example :
    (get 1000000005 7 (str "t1") firefox (add 9 config (str "t2") 7 firefox storage).0).1 ≡ some 7
unfolding add eq_str
get-add_example =
    get-add 9 1000000005 config (str "t2") 7 firefox storage storage-HasUniqueTokens
      (λ s m e. ground (arith, e, ap (λ r. r.token) (stored_session s m))) (omega arith) refl
      ((λ s m e. rw (stored_session s m) (omega arith)), λ fresh. omega arith)

run-WithinLimit_example : WithinLimit config (
    run config
      (adding 5 (str "t1") 7 firefox ∷ adding 6 (str "t2") 7 chrome ∷ removing 7 5 ∷ [])
      [])
run-WithinLimit_example =
    run-WithinLimit config
      (adding 5 (str "t1") 7 firefox ∷ adding 6 (str "t2") 7 chrome ∷ removing 7 5 ∷ [])

-- A token with the data of another client ends its session; a second client is denied here, until the
-- first session has expired.
storage_tests :
    (add 5 config (str "t1") 7 firefox [] ≡ (storage, some (str "t1")))
    × (get 9 7 (str "t1") chrome storage ≡ (record { user = 7; sessions = [] } ∷ [], none))
    × ((add 6 config (str "t2") 7 chrome storage).1 ≡ none)
    × ((add 1000000006 config (str "t2") 7 chrome storage).1 ≡ some (str "t2"))
    × (get_info 8 storage ≡ none)
unfolding add get get_info eq_str
storage_tests = (refl, refl, refl, refl, refl)

erase_if_test : erase_if (λ (n : ℕ). n == 2) (2 ∷ 1 ∷ 2 ∷ 3 ∷ 2 ∷ []) ≡ 3 ∷ 1 ∷ []
unfolding erase_if
erase_if_test = refl
