-- ===== src/Dashboard/Waiting.antt =====
-- A request of frontend/js/dashboard.js that has waited longest waits on, whatever happens, until it is
-- answered.
use teilpunkt.Base.{
  ℕ, zero, suc, ◌≡◌, some, List, [], ◌∷◌, ◌++◌, Str, get_elem?, get_last?, remove_at, head?,
  head?-append, All, Option-cases, inl, inr, arith,
}
use teilpunkt.Backend.Types.{Outcome, attempt-elim, Json, entries, Response}
use teilpunkt.Backend.{
  roots_result, dir_lookup_result, done_result, file_upload_result, file_download_result,
}
use teilpunkt.Dashboard.State.{
  Task, fetching_roots, creating, downloading, looking_up, deleting, uploading, Dashboard, Event,
  settle,
}
use teilpunkt.Dashboard.Render.{render_breadcrumb, render_directory_contents, crumb_at}
use teilpunkt.Dashboard.Clicks.{
  visit_directory, on_root_click, go_up, on_crumb_click, on_item_click, on_delete_click,
  on_download_click, on_submit, on_file_chosen,
}
use teilpunkt.Dashboard.{step, run, on_settle, continue, show_roots, show_directory, after_creation}

-- All events but the answer to the request that has waited longest.
abbrev pub IsOther : Event → Type 0
IsOther (settle zero outcome) = ⊥
IsOther _ = Unit

-- The request that has waited longest.
abbrev First : Task → Dashboard → Type 0
First t s = head? s.tasks ≡ some t

module _ (t : Task) (s : Dashboard) (first : First t s) where
  after-First : (u : Task) → head? (s.tasks ++ u ∷ []) ≡ some t
  after-First u = head?-append s.tasks (u ∷ []) first

  show_roots-First : (roots : Json) → First t (show_roots roots s)
  unfolding show_roots visit_directory
  show_roots-First (entries []) = first
  show_roots-First (entries (root ∷ roots)) = after-First _
  show_roots-First _ = first

  show_directory-First : (directory : Json) → First t (show_directory directory s)
  unfolding show_directory render_breadcrumb render_directory_contents
  show_directory-First (entries es) = first
  show_directory-First _ = first

  visit_directory-First : (dir_id : Str) → First t (visit_directory dir_id s)
  unfolding visit_directory
  visit_directory-First dir_id = after-First _

  after_creation-First : First t (after_creation s)
  unfolding after_creation visit_directory
  after_creation-First = elim (Option-cases (get_last? s.navigation_stack)) [
    | inl empty ↦ rw (empty, after_creation) first
    | inr (top, last) ↦ rw (last, after_creation) (after-First _)
  ]

  continue-First : (u : Task) (outcome : Outcome Response) → First t (continue u outcome s)
  unfolding continue
  continue-First fetching_roots outcome =
      attempt-elim (First t) (roots_result outcome) show_roots-First (λ _. first)
  continue-First (looking_up d) outcome =
      attempt-elim (First t) (dir_lookup_result outcome) show_directory-First (λ _. first)
  continue-First (deleting d) outcome =
      attempt-elim (First t) (done_result outcome) (λ _. visit_directory-First d) (λ e. first)
  continue-First creating outcome =
      attempt-elim (First t) (done_result outcome) (λ _. after_creation-First) (λ _. first)
  continue-First (uploading d) outcome =
      attempt-elim (First t) (file_upload_result outcome) (λ _. visit_directory-First d)
        (λ e. first)
  continue-First downloading outcome =
      attempt-elim (First t) (file_download_result outcome) (λ _. first) (λ e. first)

head?-remove_at :
    {A : Type 0} (xs : List A) (i : ℕ) {x : A}
    → head? xs ≡ some x
    → head? (remove_at xs (suc i)) ≡ some x
head?-remove_at [] i h = cc
head?-remove_at (x ∷ xs) i h = h

step-First : (t : Task) (s : Dashboard) (e : Event) → IsOther e → First t s → First t (step s e)
unfolding step on_root_click go_up on_crumb_click on_item_click on_delete_click on_download_click
    on_submit on_file_chosen visit_directory crumb_at
step-First t s (settle zero outcome) other first = absurd other
step-First t s (settle (suc i) outcome) other first =
    elim (Option-cases (get_elem? s.tasks (suc i))) [
      | inl missing ↦ unfold on_settle in rw (missing, on_settle) first
      | inr (task, here) ↦
          unfold on_settle in
          rw (here, on_settle)
            (continue-First t (record s { tasks = remove_at s.tasks (suc i) })
              (head?-remove_at s.tasks i first) task outcome)
    ]
step-First t s e other first = ground (arith, after-First t s first)

pub run-First :
    (t : Task) (s : Dashboard) (events : List Event)
    → All IsOther events
    → First t s
    → First t (run s events)
unfolding run
run-First t s [] others first = first
run-First t s (e ∷ es) (other, others) first =
    run-First t (step s e) es others (step-First t s e other first)
