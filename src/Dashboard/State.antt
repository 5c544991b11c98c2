-- ===== src/Dashboard/State.antt =====
-- The state of the dashboard, and what can happen to it.
use teilpunkt.Base.{ℕ, String, Str, Bool, Option, List}
use teilpunkt.Backend.Types.{Entry, File, Outcome, Response, Request}

-- A root in the side menu; the active one is highlighted.
pub record MenuItem : Type 0 where
  pub root : Entry
  pub active : Bool

-- What stands in the breadcrumb: an entry with its position on the stack, or the text ` / `.
pub data Piece : Type 0 where
  crumb : Entry → ℕ → Piece
  slash : Piece

-- The bar over the files: with a button `Up` or without, the breadcrumb, and the container of the
-- buttons that add files.
pub record MenuBar : Type 0 where
  pub up_button : Bool
  pub breadcrumb : List Piece
  pub add_file_container : Bool

-- A file or directory in the main part, with a button to download it or without.
pub record FileItem : Type 0 where
  pub entry : Entry
  pub download_button : Bool

-- What is left to do when the awaited fetch settles: the directory is the one that is looked up, or
-- the one that is visited afterwards.
pub data Task : Type 0 where
  fetching_roots creating downloading : Task
  looking_up deleting uploading : Str → Task

-- The top of `navigation_stack` is the end of the list. `uncaught` holds the errors that no handler
-- catches, `saved` the downloaded files.
pub record Dashboard : Type 0 where
  pub navigation_stack : List Entry
  pub side_menu : List MenuItem
  pub menu_bar : MenuBar
  pub contents : List FileItem
  pub modal_display : String
  pub tasks : List Task
  pub sent : List Request
  pub alerts : List Str
  pub saved : List (Str × Str)
  pub uncaught : List Str

-- A click names what it hits by its position; the submitted form has a name and a type.
pub data Event : Type 0 where
  root_click crumb_click item_click delete_click download_click : ℕ → Event
  up_click profile_click add_file_click close_click : Event
  window_click : Bool → Event
  submit : Str → Str → Event
  file_chosen : Option File → Event
  settle : ℕ → Outcome Response → Event
