-- ===== src/Login/State.antt =====
-- The state of the login page, and what can happen to it.
use teilpunkt.Base.{ℕ, String, Str, Bool, Option, List}
use teilpunkt.Dom.{Dom}
use teilpunkt.Backend.Types.{Outcome, Response, Request}

-- The options of `navigator.credentials.create` that depend on the page: the challenge and the
-- user's id are bytes.
pub record CredentialOptions : Type 0 where
  pub challenge : List ℕ
  pub user_id : List ℕ
  pub user_name : Str

-- What is left to do when the awaited promise settles. The Boolean says that the click on the
-- button of the popup waits for the login too.
pub data Task : Type 0 where
  hashing : (username password totp : Str) → Bool → Task
  logging_in : Bool → Task
  getting_challenge : Str → Task
  creating : CredentialOptions → Task
  sending_credential : Task

pub data Settled : Type 0 where
  sodium_ready : Outcome (Unit {0}) → Settled
  fetched : Outcome Response → Settled
  created : Outcome Str → Settled

pub record Login : Type 0 where
  pub passkey_available : Bool
  pub dom : Dom
  pub location : Option String
  pub tasks : List Task
  pub sent : List Request

-- The user's actions carry the text that the input then holds. `settle` names a task by position.
pub data Event : Type 0 where
  username_input password_input totp_input : Str → Event
  submit totp_submit passkey_click : Event
  settle : ℕ → Settled → Event
