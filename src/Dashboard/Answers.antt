-- ===== src/Dashboard/Answers.antt =====
-- What the answers to the lookups of frontend/js/dashboard.js show, in the order in which they come.
use mathlib.Core.Option.{some-injective}
use teilpunkt.Base.{
  ℕ, ◌≡◌, refl, ap, ◌∙◌, false, some, List, [], ◌∷◌, ◌++◌, Str, map, length, get_elem?, get_last?,
  remove_at, All, arith,
}
use teilpunkt.Backend.Types.{Outcome, fulfilled, rejected, Entry, entries, Response}
use teilpunkt.Backend.{dir_lookup_result}
use teilpunkt.Dashboard.State.{FileItem, Dashboard, looking_up, item_click, settle}
use teilpunkt.Dashboard.Render.{render_breadcrumb, render_directory_contents, file_item}
use teilpunkt.Dashboard.Clicks.{visit_directory, on_item_click}
use teilpunkt.Dashboard.Navigation.{IsFresh}
use teilpunkt.Dashboard.{step, on_settle, continue, show_directory}

-- A lookup that succeeds shows the directory that it was for, under the breadcrumb of the stack as
-- it is when the answer comes; it moves nothing on the stack.
pub settle-looking_up :
    (s : Dashboard) (i : ℕ) {dir_id : Str} (outcome : Outcome Response) {es : List Entry}
    → get_elem? s.tasks i ≡ some (looking_up dir_id)
    → dir_lookup_result outcome ≡ fulfilled (entries es)
    → let s' = step s (settle i outcome) in
      IsFresh s'
      × (s'.contents ≡ map file_item es)
      × (s'.navigation_stack ≡ s.navigation_stack)
      × (s'.tasks ≡ remove_at s.tasks i)
unfolding step on_settle continue show_directory render_breadcrumb render_directory_contents
settle-looking_up s i outcome here answer =
    rw (here, on_settle)
      (rw (answer, continue) (record { up_button = refl; breadcrumb = refl }, refl, refl, refl))

-- It sends nothing.
pub sent-looking_up :
    (s : Dashboard) (i : ℕ) {dir_id : Str} (outcome : Outcome Response) {es : List Entry}
    → get_elem? s.tasks i ≡ some (looking_up dir_id)
    → dir_lookup_result outcome ≡ fulfilled (entries es)
    → (step s (settle i outcome)).sent ≡ s.sent
unfolding step on_settle continue show_directory render_breadcrumb render_directory_contents
sent-looking_up s i outcome here answer = rw (here, on_settle) (rw (answer, continue) refl)

-- One answer after the other, each to the lookup that has waited longest.
pub answer_all : List (Outcome Response × List Entry) → Dashboard → Dashboard
answer_all [] s = s
answer_all ((outcome, es) ∷ answers) s = answer_all answers (step s (settle 0 outcome))

-- An answer that lists these entries.
abbrev pub Lists : Outcome Response × List Entry → Type 0
Lists (outcome, es) = dir_lookup_result outcome ≡ fulfilled (entries es)

-- If the lookups that wait are all answered, in the order in which they were sent, the page ends up
-- with the entries of the last one under the breadcrumb of the stack, and nothing is left to wait
-- for.
answer_all_lem :
    (dir_ids : List Str) (answers : List (Outcome Response × List Entry)) (s : Dashboard)
    {last : Outcome Response × List Entry}
    → s.tasks ≡ map looking_up dir_ids
    → length answers ≡ length dir_ids
    → All Lists answers
    → get_last? answers ≡ some last
    → let s' = answer_all answers s in
      (s'.tasks ≡ [])
      × (s'.contents ≡ map file_item last.1)
      × IsFresh s'
      × (s'.navigation_stack ≡ s.navigation_stack)
unfolding answer_all
answer_all_lem dir_ids [] s waiting same lists latest = cc
answer_all_lem [] (a ∷ answers) s waiting same lists latest = absurd (omega arith)
answer_all_lem (d ∷ e ∷ ds) (a ∷ []) s waiting same lists latest = absurd (omega arith)
answer_all_lem (d ∷ []) ((outcome, es) ∷ []) s waiting same (answer, _) latest =
    let (fresh, shown, kept, left) =
      settle-looking_up s 0 {dir_id = d} outcome (rw waiting) answer in
    (
      rw (left, waiting),
      shown ∙ ap (λ a. map file_item a.1) (some-injective _ _ latest),
      fresh,
      kept,
    )
answer_all_lem (d ∷ ds) ((outcome, es) ∷ a ∷ answers) s waiting same (answer, lists) latest =
    let (_, _, kept, left) = settle-looking_up s 0 {dir_id = d} outcome (rw waiting) answer in
    let (done, shown, fresh, kept') =
      answer_all_lem ds (a ∷ answers) (step s (settle 0 outcome)) (rw (left, waiting)) (omega arith)
        lists latest in
    (done, shown, fresh, kept' ∙ kept)

-- Two lookups that are answered the other way round leave the page with the entries of the one
-- that was sent first, though the breadcrumb shows the stack of the second.
overtaken :
    (s : Dashboard) (first second : Str) (slow fast : Outcome Response)
    {first_es second_es : List Entry}
    → s.tasks ≡ looking_up first ∷ looking_up second ∷ []
    → dir_lookup_result slow ≡ fulfilled (entries first_es)
    → dir_lookup_result fast ≡ fulfilled (entries second_es)
    → let s' = step (step s (settle 1 fast)) (settle 0 slow) in
      (s'.tasks ≡ []) × (s'.contents ≡ map file_item first_es) × IsFresh s'
overtaken s first second slow fast waiting slow_answer fast_answer =
    let (_, _, _, left) = settle-looking_up s 1 {dir_id = second} fast (rw waiting) fast_answer in
    let (fresh, shown, _, left') =
      settle-looking_up (step s (settle 1 fast)) 0 {dir_id = first} slow (rw (left, waiting))
        slow_answer in
    (rw (left', left, waiting), shown, fresh)

-- If the lookup of a directory that was clicked fails, the page goes on to show the files and the
-- breadcrumb of before, but the directory stays on the stack.
settle-item_click :
    (s : Dashboard) (i : ℕ) (outcome : Outcome Response) {item : FileItem} {error : Str}
    → s.tasks ≡ []
    → get_elem? s.contents i ≡ some item
    → item.entry.is_file ≡ false
    → dir_lookup_result outcome ≡ rejected error
    → let s' = step (step s (item_click i)) (settle 0 outcome) in
      (s'.contents ≡ s.contents)
      × (s'.menu_bar ≡ s.menu_bar)
      × (s'.navigation_stack ≡ s.navigation_stack ++ item.entry ∷ [])
unfolding step on_item_click visit_directory on_settle continue
settle-item_click s i outcome idle here directory failed = ground arith
