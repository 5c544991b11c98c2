-- ===== src/Dashboard.antt =====
-- frontend/js/dashboard.js: the dashboard as a state machine. An event is what the user does, or
-- the settling of a fetch that a handler waits for; the rest of the handler is a task until then.
-- The state says what is rendered, Markup with which elements. The messages on the console are left
-- out: nothing reads them.
pub mod State
pub mod Render
pub mod Clicks
pub mod Navigation
pub mod Answers
pub mod Menu
pub mod Rooted
pub mod Phases
pub mod Waiting
pub mod Targets
pub mod Browsing
pub mod Consistency
pub mod Races
pub mod Markup
mod Tests
mod Sessions
use teilpunkt.Dashboard.State.{
  MenuItem, Piece, crumb, slash, MenuBar, FileItem, Task, fetching_roots, creating, downloading,
  looking_up, deleting, uploading, Dashboard, Event, root_click, crumb_click, item_click,
  delete_click, download_click, up_click, profile_click, add_file_click, close_click, window_click,
  submit, file_chosen, settle,
}
use teilpunkt.Base.{
  ℕ, zero, suc, ◌+◌, ◌-◌, String, Str, str, eq_str, Bool, true, false, not, Option, none, some,
  List, [], ◌∷◌, ◌++◌, map, ltb, if◌then◌else◌, length, get_elem?, get_last?, take, drop_last,
  remove_at,
}
use teilpunkt.Backend.Types.{
  Outcome, fulfilled, rejected, attempt, Entry, File, Json, entries, Response, Request,
}
use teilpunkt.Backend.{
  roots_request, roots_result, dir_lookup_request, dir_lookup_result, dir_create_request,
  dir_delete_request, file_create_request, file_delete_request, done_result, file_upload_request,
  file_upload_result, file_download_request, file_download_result,
}
use teilpunkt.Dashboard.Render.{side_menu_of, render_breadcrumb, render_directory_contents}
use teilpunkt.Dashboard.Clicks.{
  wait_for, send, throw_uncaught, visit_directory, on_root_click, go_up, on_crumb_click,
  on_item_click, on_delete_click, on_download_click, on_submit, on_file_chosen,
}

-- `initializeFileSystemUI` after its `await`; an answer that is no array throws, and is caught.
pub show_roots : Json → Dashboard → Dashboard
unfolding side_menu_of visit_directory
show_roots (entries []) s = record s { side_menu = [] }
show_roots (entries (root ∷ roots)) s =
    visit_directory root.fid
      (record s { side_menu = side_menu_of (root ∷ roots); navigation_stack = root ∷ [] })
show_roots _ s = s

-- `visitDirectory` after its `await`; an answer that is no array throws behind the breadcrumb, and
-- is caught.
show_directory : Json → Dashboard → Dashboard
unfolding render_breadcrumb render_directory_contents
show_directory (entries es) s = render_directory_contents es (render_breadcrumb s)
show_directory _ s = render_breadcrumb s

-- `handleAddFileFormSubmit` after its `await`, which reads the stack as it is then.
after_creation : Dashboard → Dashboard
unfolding visit_directory
after_creation s =
    let hidden = record s { modal_display = "none" } in
    elim (get_last? s.navigation_stack) [
      | none ↦ hidden
      | some top ↦ visit_directory top.fid hidden
    ]

-- The rest of a handler, once its fetch has settled.
continue : Task → Outcome Response → Dashboard → Dashboard
unfolding show_roots show_directory after_creation visit_directory roots_result dir_lookup_result
    done_result file_upload_result file_download_result
continue fetching_roots outcome s =
    attempt (roots_result outcome) (λ roots. show_roots roots s) (λ _. s)
continue (looking_up dir_id) outcome s =
    attempt (dir_lookup_result outcome) (λ directory. show_directory directory s) (λ _. s)
continue (deleting current_dir) outcome s =
    attempt (done_result outcome) (λ _. visit_directory current_dir s) (λ e. throw_uncaught e s)
continue creating outcome s = attempt (done_result outcome) (λ _. after_creation s) (λ _. s)
continue (uploading current_dir) outcome s =
    attempt (file_upload_result outcome) (λ _. visit_directory current_dir s)
      (λ e. throw_uncaught e s)
continue downloading outcome s =
    attempt (file_download_result outcome) (λ file. record s { saved = s.saved ++ file ∷ [] })
      (λ e. throw_uncaught e s)

pub on_settle : ℕ → Outcome Response → Dashboard → Dashboard
unfolding continue
on_settle i outcome s = elim (get_elem? s.tasks i) [
  | none ↦ s
  | some task ↦ continue task outcome (record s { tasks = remove_at s.tasks i })
]

pub step : Dashboard → Event → Dashboard
unfolding on_root_click go_up on_crumb_click on_item_click on_delete_click on_download_click
    on_submit on_file_chosen on_settle
step s (root_click i) = on_root_click i s
step s (crumb_click i) = on_crumb_click i s
step s (item_click i) = on_item_click i s
step s (delete_click i) = on_delete_click i s
step s (download_click i) = on_download_click i s
step s up_click = if s.menu_bar.up_button then go_up s else s
step s profile_click = record s {
  alerts = s.alerts ++ str "Profile settings would appear here." ∷ [];
}
step s add_file_click = record s { modal_display = "block" }
step s close_click = record s { modal_display = "none" }
step s (window_click on_modal) = if on_modal then record s { modal_display = "none" } else s
step s (submit file_name file_type) = on_submit file_name file_type s
step s (file_chosen f) = on_file_chosen f s
step s (settle i outcome) = on_settle i outcome s

-- The page once it is loaded: it waits for the roots.
pub load : Dashboard
unfolding roots_request
load = record {
  navigation_stack = [];
  side_menu = [];
  menu_bar = record { up_button = false; breadcrumb = []; add_file_container = true };
  contents = [];
  modal_display = "none";
  tasks = fetching_roots ∷ [];
  sent = roots_request ∷ [];
  alerts = [];
  saved = [];
  uncaught = [];
}

pub run : Dashboard → List Event → Dashboard
run s [] = s
run s (e ∷ es) = run (step s e) es
