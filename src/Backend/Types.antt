-- ===== src/Backend/Types.antt =====
-- Promises that have settled, requests and responses.
use teilpunkt.Base.{ℕ, String, Str, Bool, List, Option}

-- How a promise settled: with a value, or with an error and its message.
pub data Outcome {ℓ} (A : Type ℓ) : Type ℓ where
  fulfilled : A → Outcome A
  rejected : Str → Outcome A

infixl 5 ◌>>=◌ ◌>>◌
abbrev pub ◌>>=◌ {ℓ κ} : {A : Type ℓ} {B : Type κ} → Outcome A → (A → Outcome B) → Outcome B
fulfilled a >>= f = f a
rejected e >>= f = rejected e

abbrev pub ◌>>◌ {ℓ κ} : {A : Type ℓ} {B : Type κ} → Outcome A → Outcome B → Outcome B
m >> k = m >>= λ _. k

-- A file of the user's machine, with its content.
pub record File : Type 0 where
  pub name : Str
  pub content : Str

-- A directory or file as the server lists it. `fid` is a decimal text there.
pub record Entry : Type 0 where
  pub name : Str
  pub fid : Str
  pub is_file : Bool

-- What the body of a response parses to: a list of entries, an object with a text as its challenge, an
-- object with a challenge of another kind, with what `Uint8Array.from` makes of that, or anything else
-- that is no array.
pub data Json : Type 0 where
  entries : List Entry → Json
  challenge : Str → Json
  other_challenge : Outcome (List ℕ) → Json
  other : Json

-- `text`, `json` and `blob` are how the promise of reading the body so settles.
pub record Response : Type 0 where
  pub is_ok : Bool
  pub text : Outcome Str
  pub json : Outcome Json
  pub blob : Outcome Str
  pub content_disposition : Option Str

-- `json` is the JSON text of an object of these fields, `json_text` a JSON text as it is.
pub data Body : Type 0 where
  empty : Body
  json : List (String × Str) → Body
  json_text : Str → Body
  file : File → Body

pub record Request : Type 0 where
  pub url : String
  pub method : String
  pub headers : List (String × Str)
  pub body : Body

-- `try { a = await m; … } catch (error) { … }`
abbrev pub attempt {ℓ κ} : {A : Type ℓ} {B : Type κ} → Outcome A → (A → B) → (Str → B) → B
attempt (fulfilled a) then_do catch_do = then_do a
attempt (rejected e) then_do catch_do = catch_do e

-- What holds after the block and after its handler holds after both.
pub attempt-elim {ℓ κ μ} :
    {A : Type ℓ} {B : Type κ} (P : B → Type μ) (m : Outcome A) {f : A → B} {g : Str → B}
    → ((a : A) → P (f a))
    → ((e : Str) → P (g e))
    → P (attempt m f g)
attempt-elim P (fulfilled a) h k = h a
attempt-elim P (rejected e) h k = k e
