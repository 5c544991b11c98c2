-- ===== src/Signup/State.antt =====
-- The state of the sign-up page, and what can happen to it.
use teilpunkt.Base.{ℕ, String, Str, Bool, Option, List}
use teilpunkt.Dom.{Dom}
use teilpunkt.Qr.{Canvas}
use teilpunkt.Backend.Types.{Outcome, Response, Request}

-- What is left to do when the awaited promise settles.
pub data Task : Type 0 where
  hashing : (username password : Str) → Task
  registering : Task

pub data Settled : Type 0 where
  sodium_ready : Outcome (Unit {0}) → Settled
  fetched : Outcome Response → Settled

-- `canvas` is what has been drawn, `uncaught` holds the errors that no handler catches.
pub record Signup : Type 0 where
  pub passkey_available : Bool
  pub dom : Dom
  pub canvas : Option Canvas
  pub location : Option String
  pub tasks : List Task
  pub sent : List Request
  pub uncaught : List Str

-- The user's actions carry the text that the input then holds. `settle` names a task by position.
pub data Event : Type 0 where
  username_input password_input confirm_input : Str → Event
  submit qr_click passkey_click : Event
  settle : ℕ → Settled → Event
