-- ===== src/Dashboard/Targets.antt =====
-- Which directory the deletions, creations and uploads of frontend/js/dashboard.js go to, and what
-- the page does with their answers.
use teilpunkt.Base.{
  ◌≡◌, some, [], ◌∷◌, eq_str, ◌++◌, append_assoc, Str, str, if◌then◌else◌, get_last?, arith,
}
use teilpunkt.Backend.Types.{Outcome, fulfilled, attempt, Entry, File, Response, Request}
use teilpunkt.Backend.{
  dir_lookup_request, done_result, file_upload_request, file_upload_result, file_delete_request,
  dir_delete_request, dir_create_request, file_create_request,
}
use teilpunkt.Dashboard.State.{Dashboard, looking_up, submit, file_chosen, settle}
use teilpunkt.Dashboard.Clicks.{visit_directory, on_submit, on_file_chosen}
use teilpunkt.Dashboard.{step, on_settle, continue}

-- What a click on `Delete` sends: to one endpoint for files, to another for directories.
abbrev pub deletion : Entry → Request
deletion entry =
    if entry.is_file then file_delete_request entry.fid else dir_delete_request entry.fid

-- An upload goes to the directory on top of the stack, and the answer makes no difference: whether
-- the server took the file or refused it, the same directory is looked up, and no error is raised.
settle-file_chosen :
    (s : Dashboard) (f : File) (outcome : Outcome Response) {request : Request} {top : Entry}
    → s.tasks ≡ []
    → get_last? s.navigation_stack ≡ some top
    → file_upload_request f top.fid ≡ fulfilled request
    → let s' = step (step s (file_chosen (some f))) (settle 0 outcome) in
      (s'.sent ≡ s.sent ++ request ∷ dir_lookup_request top.fid ∷ [])
      × (s'.tasks ≡ looking_up top.fid ∷ [])
      × (s'.uncaught ≡ s.uncaught)
unfolding step on_file_chosen visit_directory on_settle continue file_upload_result
settle-file_chosen s f outcome {request} {top} idle there accepted =
    ground (arith, append_assoc s.sent (request ∷ []) (dir_lookup_request top.fid ∷ []))

-- What the form sends: a folder or a file in the directory.
abbrev pub creation : Str → Entry → Str → Request
creation file_type top name =
    if eq_str file_type (str "folder")
    then dir_create_request top.fid name
    else file_create_request top.fid name

-- The form creates a folder or a file in the directory on top of the stack. If that succeeds, the
-- form is hidden and the directory is looked up again; if it fails, the form stays as it is, and no
-- error is raised.
settle-submit :
    (s : Dashboard) (name file_type : Str) (outcome : Outcome Response) {top : Entry}
    → s.tasks ≡ []
    → get_last? s.navigation_stack ≡ some top
    → let s' = step (step s (submit name file_type)) (settle 0 outcome) in
      (s'.sent
        ≡ s.sent
          ++ creation file_type top name
            ∷ attempt (done_result outcome) (λ _. dir_lookup_request top.fid ∷ []) (λ _. []))
      × (s'.tasks ≡ attempt (done_result outcome) (λ _. looking_up top.fid ∷ []) (λ _. []))
      × (s'.modal_display ≡ attempt (done_result outcome) (λ _. "none") (λ _. s.modal_display))
      × (s'.uncaught ≡ s.uncaught)
unfolding step on_submit visit_directory on_settle continue
settle-submit s name file_type outcome {top} idle there = ground (
  arith,
  append_assoc s.sent (creation file_type top name ∷ []) (dir_lookup_request top.fid ∷ []),
)
