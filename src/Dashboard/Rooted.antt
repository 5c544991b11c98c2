-- ===== src/Dashboard/Rooted.antt =====
-- What each event does in frontend/js/dashboard.js once a root is on the navigation stack.
use teilpunkt.Base.{
  ℕ, ◌≡◌, refl, ◌∙◌, Option, none, some, [], ◌∷◌, ◌++◌, Str, not, if-elim, get_elem?, get_last?,
  head?, head?-append, head?-take, head?-drop_last, append_ne_nil, drop_last, remove_at, All,
  All-append, All-remove_at, All-get_elem?, Option-cases, inl, inr,
}
use teilpunkt.Backend.Types.{
  Outcome, attempt-elim, Entry, File, Json, entries, challenge, other_challenge, other, Response,
  Request,
}
use teilpunkt.Backend.{
  dir_lookup_result, done_result, file_upload_result, file_download_result, file_upload_request,
  file_download_request,
}
use teilpunkt.Dashboard.State.{
  Task, fetching_roots, creating, downloading, looking_up, deleting, uploading, Dashboard,
}
use teilpunkt.Dashboard.Render.{crumb_at, render_breadcrumb, render_directory_contents}
use teilpunkt.Dashboard.Clicks.{
  visit_directory, throw_uncaught, on_root_click, go_up, on_crumb_click, on_item_click,
  on_delete_click, on_download_click, on_submit, on_file_chosen,
}
use teilpunkt.Dashboard.{on_settle, continue, show_directory, after_creation}
use teilpunkt.Dashboard.Menu.{active_roots, active_roots-activate, IsLater, Phase, failed, rooted}

-- With a root on the stack.
module _ (s : Dashboard) (root : Entry) (bottom : head? s.navigation_stack ≡ some root)
    (active : active_roots s.side_menu ≡ root ∷ []) (later : All IsLater s.tasks) where
  here-Phase : Phase s
  here-Phase = rooted root bottom active later

  waiting-Phase :
      (t : Task) (r : Request)
      → IsLater t
      → Phase (record s { tasks = s.tasks ++ t ∷ []; sent = s.sent ++ r ∷ [] })
  waiting-Phase t r l = rooted root bottom active (All-append IsLater s.tasks _ later (l, tt))

  visit-Phase : (dir_id : Str) → Phase (visit_directory dir_id s)
  unfolding visit_directory
  visit-Phase dir_id = waiting-Phase (looking_up dir_id) _ tt

  throw-Phase : (e : Str) → Phase (throw_uncaught e s)
  throw-Phase e = failed (append_ne_nil s.uncaught e)

  pub root_click-Phase : (i : ℕ) → Phase (on_root_click i s)
  unfolding on_root_click visit_directory
  root_click-Phase i = elim (Option-cases (get_elem? s.side_menu i)) [
    | inl missing ↦ rw (missing, on_root_click) here-Phase
    | inr (item, here) ↦
        rw (here, on_root_click)
          (rooted item.root refl (active_roots-activate s.side_menu i here)
            (All-append IsLater s.tasks _ later (tt, tt)))
  ]

  pub up_click-Phase : Phase (go_up s)
  unfolding go_up visit_directory
  up_click-Phase = elim (Option-cases (get_last? (drop_last s.navigation_stack))) [
    | inl emptied ↦ rw (emptied, go_up) (failed (append_ne_nil s.uncaught _))
    | inr (top, last) ↦
        rw (last, go_up)
          (rooted root (head?-drop_last s.navigation_stack last ∙ bottom) active
            (All-append IsLater s.tasks _ later (tt, tt)))
  ]

  pub crumb_click-Phase : (i : ℕ) → Phase (on_crumb_click i s)
  unfolding on_crumb_click visit_directory
  crumb_click-Phase i = elim (Option-cases (crumb_at i s.menu_bar.breadcrumb)) [
    | inl missing ↦ rw (missing, on_crumb_click) here-Phase
    | inr ((entry, index), here) ↦
        rw (here, on_crumb_click)
          (rooted root (head?-take index s.navigation_stack ∙ bottom) active
            (All-append IsLater s.tasks _ later (tt, tt)))
  ]

  pub item_click-Phase : (i : ℕ) → Phase (on_item_click i s)
  unfolding on_item_click visit_directory
  item_click-Phase i = elim (Option-cases (get_elem? s.contents i)) [
    | inl missing ↦ rw (missing, on_item_click) here-Phase
    | inr (item, here) ↦
        rw (here, on_item_click)
          (if-elim Phase (not item.entry.is_file)
            (rooted root (head?-append s.navigation_stack _ bottom) active
              (All-append IsLater s.tasks _ later (tt, tt)))
            (rooted root bottom active later))
  ]

  pub delete_click-Phase : (i : ℕ) → Phase (on_delete_click i s)
  unfolding on_delete_click
  delete_click-Phase i = elim (Option-cases (get_elem? s.contents i)) [
    | inl missing ↦ rw (missing, on_delete_click) here-Phase
    | inr (item, here) ↦ elim (Option-cases (get_last? s.navigation_stack)) [
      | inl empty ↦ rw (here, empty, on_delete_click) (throw-Phase _)
      | inr (top, last) ↦ rw (here, last, on_delete_click) (waiting-Phase (deleting top.fid) _ tt)
    ]
  ]

  pub download_click-Phase : (i : ℕ) → Phase (on_download_click i s)
  unfolding on_download_click
  download_click-Phase i = elim (Option-cases (get_elem? s.contents i)) [
    | inl missing ↦ rw (missing, on_download_click) here-Phase
    | inr (item, here) ↦
        rw (here, on_download_click)
          (if-elim Phase item.download_button
            (attempt-elim Phase (file_download_request item.entry.fid)
              (λ r. waiting-Phase downloading r tt) (λ e. throw-Phase e))
            here-Phase)
  ]

  pub submit-Phase : (name file_type : Str) → Phase (on_submit name file_type s)
  unfolding on_submit
  submit-Phase name file_type = elim (Option-cases (get_last? s.navigation_stack)) [
    | inl empty ↦ rw (empty, on_submit) here-Phase
    | inr (top, last) ↦ rw (last, on_submit) (waiting-Phase creating _ tt)
  ]

  pub file_chosen-Phase : (f : Option File) → Phase (on_file_chosen f s)
  unfolding on_file_chosen
  file_chosen-Phase none = here-Phase
  file_chosen-Phase (some f) = elim (Option-cases (get_last? s.navigation_stack)) [
    | inl empty ↦ rw (empty, on_file_chosen) (throw-Phase _)
    | inr (top, last) ↦
        rw (last, on_file_chosen)
          (attempt-elim Phase (file_upload_request f top.fid)
            (λ r. waiting-Phase (uploading top.fid) r tt) (λ e. throw-Phase e))
  ]

  -- The answers but that of the roots.
  show_directory-Phase : (directory : Json) → Phase (show_directory directory s)
  unfolding show_directory render_breadcrumb render_directory_contents
  show_directory-Phase (entries es) = rooted root bottom active later
  show_directory-Phase (challenge c) = rooted root bottom active later
  show_directory-Phase (other_challenge c) = rooted root bottom active later
  show_directory-Phase other = rooted root bottom active later

  after_creation-Phase : Phase (after_creation s)
  unfolding after_creation visit_directory
  after_creation-Phase = elim (Option-cases (get_last? s.navigation_stack)) [
    | inl empty ↦ rw (empty, after_creation) (rooted root bottom active later)
    | inr (top, last) ↦
        rw (last, after_creation)
          (rooted root bottom active (All-append IsLater s.tasks _ later (tt, tt)))
  ]

  continue-Phase :
      (t : Task) (outcome : Outcome Response) → IsLater t → Phase (continue t outcome s)
  unfolding continue
  continue-Phase fetching_roots outcome l = absurd l
  continue-Phase (looking_up d) outcome l =
      attempt-elim Phase (dir_lookup_result outcome) show_directory-Phase (λ _. here-Phase)
  continue-Phase (deleting d) outcome l =
      attempt-elim Phase (done_result outcome) (λ _. visit-Phase d) (λ e. throw-Phase e)
  continue-Phase creating outcome l =
      attempt-elim Phase (done_result outcome) (λ _. after_creation-Phase) (λ _. here-Phase)
  continue-Phase (uploading d) outcome l =
      attempt-elim Phase (file_upload_result outcome) (λ _. visit-Phase d) (λ e. throw-Phase e)
  continue-Phase downloading outcome l =
      attempt-elim Phase (file_download_result outcome) (λ _. rooted root bottom active later)
        (λ e. throw-Phase e)

pub settle-rooted :
    (s : Dashboard) (i : ℕ) (outcome : Outcome Response) (root : Entry)
    → head? s.navigation_stack ≡ some root
    → active_roots s.side_menu ≡ root ∷ []
    → All IsLater s.tasks
    → Phase (on_settle i outcome s)
unfolding on_settle
settle-rooted s i outcome root bottom active later = elim (Option-cases (get_elem? s.tasks i)) [
  | inl missing ↦ rw (missing, on_settle) (rooted root bottom active later)
  | inr (task, here) ↦
      rw (here, on_settle)
        (continue-Phase (record s { tasks = remove_at s.tasks i }) root bottom active
          (All-remove_at IsLater s.tasks i later) task outcome
          (All-get_elem? IsLater s.tasks i later here))
]
