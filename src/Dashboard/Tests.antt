-- ===== src/Dashboard/Tests.antt =====
-- The dashboard with one root, a directory and a file.
use teilpunkt.Base.{◌≡◌, refl, true, false, none, List, [], ◌∷◌, str, take}
use teilpunkt.Backend.Types.{
  Outcome, fulfilled, rejected, Response, Entry, File, entries, Body, Request,
}
use teilpunkt.Backend.{fetch_with_error_handling, dir_lookup_result, roots_result}
use teilpunkt.Dashboard.State.{Dashboard, Event, looking_up, item_click, settle}
use teilpunkt.Dashboard.Render.{pieces_from, file_item}
use teilpunkt.Dashboard.Navigation.{IsFresh}
use teilpunkt.Dashboard.Menu.{active_roots}
use teilpunkt.Dashboard.Phases.{run-highlight}
use teilpunkt.Dashboard.{load, step, run}

abbrev pub home : Entry
home = record { name = str "home"; fid = str "1"; is_file = false }

abbrev pub docs : Entry
docs = record { name = str "docs"; fid = str "2"; is_file = false }

abbrev pub note : Entry
note = record { name = str "note.txt"; fid = str "3"; is_file = true }

abbrev pub listing : List Entry → Outcome Response
listing es = fulfilled (record {
  is_ok = true;
  text = fulfilled (str "");
  json = fulfilled (entries es);
  blob = fulfilled (str "");
  content_disposition = none;
})

abbrev lost : Outcome Response
lost = rejected (str "NetworkError")

-- In the directory below the root, everything answered.
abbrev pub inside : Dashboard
inside = record {
  navigation_stack = home ∷ docs ∷ [];
  side_menu = record { root = home; active = true } ∷ [];
  menu_bar = record {
    up_button = true;
    breadcrumb = pieces_from 0 (home ∷ docs ∷ []);
    add_file_container = true;
  };
  contents = file_item docs ∷ file_item note ∷ [];
  modal_display = "block";
  tasks = [];
  sent = [];
  alerts = [];
  saved = [];
  uncaught = [];
}

pub inside-IsFresh : IsFresh inside
inside-IsFresh = record { up_button = refl; breadcrumb = refl }

-- Two lookups under way.
abbrev busy : Dashboard
busy = record inside { tasks = looking_up (str "1") ∷ looking_up (str "2") ∷ [] }

abbrev answers : List (Outcome Response × List Entry)
answers = (listing (docs ∷ []), docs ∷ []) ∷ (listing (note ∷ []), note ∷ []) ∷ []

abbrev chosen : File
chosen = record { name = str "a.txt"; content = str "hi" }

abbrev upload : Request
upload = record {
  url = "/api/filesystem/upload";
  method = "POST";
  headers = ("file-name", str "a.txt") ∷ ("directory", str "2") ∷ [];
  body = Body.file chosen;
}

abbrev session : List Event
session = settle 0 (listing (home ∷ [])) ∷ settle 0 (listing (docs ∷ [])) ∷ item_click 0 ∷ []

run-highlight_example :
    active_roots (run load session).side_menu ≡ take 1 (run load session).navigation_stack
unfolding roots_result dir_lookup_result fetch_with_error_handling load run step
run-highlight_example = run-highlight session refl

-- The session ends in the directory, with its lookup under way.
session_test : (run load session).navigation_stack ≡ home ∷ docs ∷ []
unfolding roots_result dir_lookup_result fetch_with_error_handling load run step
session_test = refl
