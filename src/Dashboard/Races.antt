-- ===== src/Dashboard/Races.antt =====
-- What the handlers of frontend/js/dashboard.js do when the user is faster than the server.
use teilpunkt.Base.{
  ℕ, Str, ◌≡◌, false, some, [], ◌∷◌, ◌++◌, List, map, append_assoc, get_elem?, get_last?, arith,
  ◌∙◌,
}
use teilpunkt.Backend.Types.{Outcome, fulfilled, Entry, entries, Response}
use teilpunkt.Backend.{dir_lookup_request, dir_lookup_result, done_result}
use teilpunkt.Dashboard.State.{
  FileItem, Dashboard, looking_up, deleting, delete_click, item_click, crumb_click, up_click,
  settle,
}
use teilpunkt.Dashboard.Render.{file_item, pieces_from, crumb_at}
use teilpunkt.Dashboard.Clicks.{
  visit_directory, on_delete_click, on_item_click, on_crumb_click, go_up,
}
use teilpunkt.Dashboard.Navigation.{IsFresh}
use teilpunkt.Dashboard.Answers.{settle-looking_up, sent-looking_up}
use teilpunkt.Dashboard.Targets.{deletion}
use teilpunkt.Dashboard.{step, on_settle, continue}

-- The user deletes an item and then opens a directory, before the deletion is answered. The directory
-- that was on top at the deletion is looked up last, though the stack has another on top by then: with
-- all answers in order, from a server with these listings, the page ends up with the entries of the
-- directory of the deletion under the breadcrumb of the one that was opened, and nothing is left to
-- wait for.
pub delete_click-item_click :
    (listing : Str → List Entry) (s : Dashboard) (i j : ℕ)
    (deleted opened reloaded : Outcome Response) {item dir : FileItem} {top : Entry}
    → s.tasks ≡ []
    → get_elem? s.contents i ≡ some item
    → get_elem? s.contents j ≡ some dir
    → dir.entry.is_file ≡ false
    → get_last? s.navigation_stack ≡ some top
    → done_result deleted ≡ fulfilled tt
    → dir_lookup_result opened ≡ fulfilled (entries (listing dir.entry.fid))
    → dir_lookup_result reloaded ≡ fulfilled (entries (listing top.fid))
    → let clicked = step (step s (delete_click i)) (item_click j) in
      let s' =
        step (step (step clicked (settle 0 deleted)) (settle 0 opened)) (settle 0 reloaded) in
      (s'.tasks ≡ [])
      × (s'.sent
          ≡ s.sent
            ++ deletion item.entry
              ∷ dir_lookup_request dir.entry.fid
              ∷ dir_lookup_request top.fid
              ∷ [])
      × (s'.contents ≡ map file_item (listing top.fid))
      × (s'.navigation_stack ≡ s.navigation_stack ++ dir.entry ∷ [])
      × IsFresh s'
delete_click-item_click listing s i j deleted opened reloaded {item} {dir} {top} idle here there
      directory last gone lists lists' =
    let clicked = step (step s (delete_click i)) (item_click j) in
    let waits : clicked.tasks ≡ deleting top.fid ∷ looking_up dir.entry.fid ∷ [] =
      unfold step on_delete_click on_item_click visit_directory in ground arith in
    let third = step clicked (settle 0 deleted) in
    let waits' : third.tasks ≡ looking_up dir.entry.fid ∷ looking_up top.fid ∷ [] =
      unfold step on_settle continue visit_directory in ground arith in
    let stack : third.navigation_stack ≡ s.navigation_stack ++ dir.entry ∷ [] =
      unfold step on_delete_click on_item_click on_settle continue visit_directory in
      ground arith in
    let requests : third.sent
        ≡ s.sent
          ++ deletion item.entry
            ∷ dir_lookup_request dir.entry.fid
            ∷ dir_lookup_request top.fid
            ∷ [] =
      unfold step on_delete_click on_item_click on_settle continue visit_directory in
      ground (
        arith,
        append_assoc s.sent (deletion item.entry ∷ []) (dir_lookup_request dir.entry.fid ∷ []),
        append_assoc s.sent (deletion item.entry ∷ dir_lookup_request dir.entry.fid ∷ [])
            (dir_lookup_request top.fid ∷ []),
      ) in
    let sent' = sent-looking_up third 0 {dir_id = dir.entry.fid} opened (rw waits') lists in
    let (_, _, kept, left) =
      settle-looking_up third 0 {dir_id = dir.entry.fid} opened (rw waits') lists in
    let sent'' =
      sent-looking_up (step third (settle 0 opened)) 0 {dir_id = top.fid} reloaded
        (rw (left, waits')) lists' in
    let (fresh, listed, kept', left') =
      settle-looking_up (step third (settle 0 opened)) 0 {dir_id = top.fid} reloaded
        (rw (left, waits')) lists' in
    (rw (left', left, waits'), sent'' ∙ sent' ∙ requests, listed, kept' ∙ kept ∙ stack, fresh)

-- On a stack of two with the bar up to date, a click on Up and then, before the answer, on the last
-- crumb: the stack is left with the root alone, though the directory that the crumb names is looked
-- up last.
up_click-crumb_click :
    (s : Dashboard) {root top : Entry}
    → IsFresh s
    → s.navigation_stack ≡ root ∷ top ∷ []
    → let s' = step (step s up_click) (crumb_click 1) in
      (s'.navigation_stack ≡ root ∷ [])
      × (s'.tasks ≡ s.tasks ++ looking_up root.fid ∷ looking_up top.fid ∷ [])
      × (s'.sent ≡ s.sent ++ dir_lookup_request root.fid ∷ dir_lookup_request top.fid ∷ [])
unfolding step go_up on_crumb_click visit_directory crumb_at pieces_from
up_click-crumb_click s {root} {top} fresh two = ground (
  arith,
  append_assoc s.tasks (looking_up root.fid ∷ []) (looking_up top.fid ∷ []),
  append_assoc s.sent (dir_lookup_request root.fid ∷ []) (dir_lookup_request top.fid ∷ []),
)
