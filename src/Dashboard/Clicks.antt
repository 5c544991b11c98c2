-- ===== src/Dashboard/Clicks.antt =====
-- The handlers of frontend/js/dashboard.js up to their first `await`. A click on what is not
-- rendered does not happen, and changes nothing.
use teilpunkt.Base.{
  ℕ, suc, Str, str, eq_str, not, Option, none, some, [], ◌∷◌, ◌++◌, if◌then◌else◌, get_elem?,
  get_last?, take, drop_last,
}
use teilpunkt.Backend.Types.{attempt, File, Request}
use teilpunkt.Backend.{
  dir_lookup_request, dir_create_request, dir_delete_request, file_create_request,
  file_delete_request, file_upload_request, file_download_request,
}
use teilpunkt.Dashboard.State.{
  Task, creating, downloading, looking_up, deleting, uploading, Dashboard,
}
use teilpunkt.Dashboard.Render.{activate, crumb_at}

abbrev pub type_error : Str
type_error = str "TypeError"

abbrev pub wait_for : Task → Dashboard → Dashboard
wait_for t s = record s { tasks = s.tasks ++ t ∷ [] }

abbrev pub send : Request → Dashboard → Dashboard
send r s = record s { sent = s.sent ++ r ∷ [] }

abbrev pub throw_uncaught : Str → Dashboard → Dashboard
throw_uncaught e s = record s { uncaught = s.uncaught ++ e ∷ [] }

-- `visitDirectory` up to its `await`
unfoldable pub visit_directory : Str → Dashboard → Dashboard
unfolding dir_lookup_request
visit_directory dir_id s = wait_for (looking_up dir_id) (send (dir_lookup_request dir_id) s)

unfoldable pub on_root_click : ℕ → Dashboard → Dashboard
unfolding activate visit_directory
on_root_click i s = elim (get_elem? s.side_menu i) [
  | none ↦ s
  | some item ↦
      visit_directory item.root.fid
        (record s { side_menu = activate i s.side_menu; navigation_stack = item.root ∷ [] })
]

-- The handler of the button `Up`, which reads the stack as it is at the click.
unfoldable pub go_up : Dashboard → Dashboard
unfolding visit_directory
go_up s =
    let popped = record s { navigation_stack = drop_last s.navigation_stack } in
    elim (get_last? popped.navigation_stack) [
      | none ↦ throw_uncaught type_error popped
      | some top ↦ visit_directory top.fid popped
    ]

unfoldable pub on_crumb_click : ℕ → Dashboard → Dashboard
unfolding crumb_at visit_directory
on_crumb_click i s = elim (crumb_at i s.menu_bar.breadcrumb) [
  | none ↦ s
  | some (entry, index) ↦
      visit_directory entry.fid
        (record s { navigation_stack = take (suc index) s.navigation_stack })
]

unfoldable pub on_item_click : ℕ → Dashboard → Dashboard
unfolding visit_directory
on_item_click i s = elim (get_elem? s.contents i) [
  | none ↦ s
  | some item ↦
      if not item.entry.is_file
      then visit_directory item.entry.fid
          (record s { navigation_stack = s.navigation_stack ++ item.entry ∷ [] })
      else record s { alerts = s.alerts ++ (str "You selected file: " ++ item.entry.name) ∷ [] }
]

unfoldable pub on_delete_click : ℕ → Dashboard → Dashboard
unfolding file_delete_request dir_delete_request
on_delete_click i s = elim (get_elem? s.contents i) [
  | none ↦ s
  | some item ↦ elim (get_last? s.navigation_stack) [
    | none ↦ throw_uncaught type_error s
    | some top ↦ wait_for (deleting top.fid) (
        send
          (if item.entry.is_file
            then file_delete_request item.entry.fid
            else dir_delete_request item.entry.fid)
          s)
  ]
]

-- Only an item with the button can be downloaded. The call is not awaited, so its error is caught
-- by nothing.
unfoldable pub on_download_click : ℕ → Dashboard → Dashboard
unfolding file_download_request
on_download_click i s = elim (get_elem? s.contents i) [
  | none ↦ s
  | some item ↦
      if item.download_button
      then attempt (file_download_request item.entry.fid) (λ r. wait_for downloading (send r s))
          (λ e. throw_uncaught e s)
      else s
]

-- `handleAddFileFormSubmit`; without a directory the error is caught and logged.
unfoldable pub on_submit : Str → Str → Dashboard → Dashboard
unfolding eq_str dir_create_request file_create_request
on_submit file_name file_type s = elim (get_last? s.navigation_stack) [
  | none ↦ s
  | some top ↦ wait_for creating (
      send
        (if eq_str file_type (str "folder")
          then dir_create_request top.fid file_name
          else file_create_request top.fid file_name)
        s)
]

unfoldable pub on_file_chosen : Option File → Dashboard → Dashboard
unfolding file_upload_request
on_file_chosen none s = s
on_file_chosen (some f) s = elim (get_last? s.navigation_stack) [
  | none ↦ throw_uncaught type_error s
  | some top ↦
      attempt (file_upload_request f top.fid) (λ r. wait_for (uploading top.fid) (send r s))
        (λ e. throw_uncaught e s)
]
