-- ===== src/Dashboard/Menu.antt =====
-- The side menu and the navigation stack of frontend/js/dashboard.js, over everything that can
-- happen on the page.
use teilpunkt.Base.{
  ℕ, zero, suc, ◌≡◌, ◌≢◌, refl, ap, false, some, List, [], ◌∷◌, Str, if◌then◌else◌, get_elem?,
  head?, append_ne_nil, remove_at, All, arith, Option-cases, inl, inr,
}
use teilpunkt.Backend.Types.{
  Outcome, attempt-elim, Entry, Json, entries, challenge, other_challenge, other, Response,
}
use teilpunkt.Backend.{
  roots_result, dir_lookup_result, done_result, file_upload_result, file_download_result,
}
use teilpunkt.Dashboard.State.{
  MenuItem, Task, fetching_roots, creating, downloading, looking_up, deleting, uploading, Dashboard,
  Event, root_click, settle,
}
use teilpunkt.Dashboard.Render.{
  side_menu_of, inactive, crumb_at, activate, deactivate, render_breadcrumb,
  render_directory_contents,
}
use teilpunkt.Dashboard.Clicks.{
  visit_directory, on_root_click, go_up, on_crumb_click, on_item_click, on_delete_click,
  on_download_click, on_submit, on_file_chosen,
}
use teilpunkt.Dashboard.{step, on_settle, continue, show_roots, show_directory, after_creation}

-- The highlighted roots: those whose items are active.
unfoldable pub active_roots : List MenuItem → List Entry
active_roots [] = []
active_roots (item ∷ items) =
    let rest = active_roots items in if item.active then item.root ∷ rest else rest

active_roots-deactivate : (items : List MenuItem) → active_roots (deactivate items) ≡ []
unfolding active_roots deactivate
active_roots-deactivate [] = refl
active_roots-deactivate (m ∷ items) = active_roots-deactivate items

active_roots-inactive : (roots : List Entry) → active_roots (inactive roots) ≡ []
unfolding active_roots inactive
active_roots-inactive [] = refl
active_roots-inactive (root ∷ roots) = active_roots-inactive roots

-- The click on a root highlights it alone.
pub active_roots-activate :
    (items : List MenuItem) (i : ℕ) {item : MenuItem}
    → get_elem? items i ≡ some item
    → active_roots (activate i items) ≡ item.root ∷ []
unfolding active_roots activate
active_roots-activate [] i h = cc
active_roots-activate (m ∷ items) zero h = cc (active_roots-deactivate items, h)
active_roots-activate (m ∷ items) (suc i) h = active_roots-activate items i h

-- Nothing is rendered yet.
pub record Blank (s : Dashboard) : Type 0 where
  pub stack : s.navigation_stack ≡ []
  pub menu : s.side_menu ≡ []
  pub contents : s.contents ≡ []
  pub up_button : s.menu_bar.up_button ≡ false
  pub breadcrumb : s.menu_bar.breadcrumb ≡ []

abbrev pub IsLater : Task → Type 0
IsLater fetching_roots = ⊥
IsLater _ = Unit

-- The page waits for its roots, or it has none, or it shows them with the bottom of the stack
-- highlighted; or else some error has gone uncaught.
pub data Phase (s : Dashboard) : Type 0 where
  starting : s.tasks ≡ fetching_roots ∷ [] → Blank s → Phase s
  rootless : s.tasks ≡ [] → Blank s → Phase s
  failed : s.uncaught ≢ [] → Phase s
  rooted :
      (root : Entry)
      → head? s.navigation_stack ≡ some root
      → active_roots s.side_menu ≡ root ∷ []
      → All IsLater s.tasks
      → Phase s

-- An event of the user changes nothing on a blank page, but for alerts and errors.
abbrev pub IsClick : Event → Type 0
IsClick (settle i outcome) = ⊥
IsClick _ = Unit

pub click-Blank :
    (s : Dashboard) (e : Event)
    → IsClick e
    → Blank s
    → Blank (step s e) × ((step s e).tasks ≡ s.tasks)
unfolding step on_root_click go_up on_crumb_click on_item_click on_delete_click on_download_click
    on_submit on_file_chosen crumb_at
click-Blank s (root_click i) c b = ground arith
click-Blank s e c b = ground arith

-- An error that has gone uncaught stays.
abbrev pub HasUncaught : Dashboard → Type 0
HasUncaught s = s.uncaught ≢ []

module _ (s : Dashboard) (h : HasUncaught s) where
  show_roots-HasUncaught : (roots : Json) → HasUncaught (show_roots roots s)
  unfolding show_roots visit_directory
  show_roots-HasUncaught (entries []) = h
  show_roots-HasUncaught (entries (root ∷ roots)) = h
  show_roots-HasUncaught (challenge c) = h
  show_roots-HasUncaught (other_challenge c) = h
  show_roots-HasUncaught other = h

  show_directory-HasUncaught : (directory : Json) → HasUncaught (show_directory directory s)
  unfolding show_directory render_breadcrumb render_directory_contents
  show_directory-HasUncaught (entries es) = h
  show_directory-HasUncaught (challenge c) = h
  show_directory-HasUncaught (other_challenge c) = h
  show_directory-HasUncaught other = h

  visit_directory-HasUncaught : (dir_id : Str) → HasUncaught (visit_directory dir_id s)
  unfolding visit_directory
  visit_directory-HasUncaught dir_id = h

  continue-HasUncaught :
      (t : Task) (outcome : Outcome Response) → HasUncaught (continue t outcome s)
  unfolding continue
  continue-HasUncaught fetching_roots outcome =
      attempt-elim HasUncaught (roots_result outcome) show_roots-HasUncaught (λ _. h)
  continue-HasUncaught (looking_up d) outcome =
      attempt-elim HasUncaught (dir_lookup_result outcome) show_directory-HasUncaught (λ _. h)
  continue-HasUncaught (deleting d) outcome =
      attempt-elim HasUncaught (done_result outcome) (λ _. visit_directory-HasUncaught d)
        (λ e. append_ne_nil s.uncaught e)
  continue-HasUncaught creating outcome =
      attempt-elim HasUncaught (done_result outcome)
        (λ _. unfold after_creation visit_directory in ground arith) (λ _. h)
  continue-HasUncaught (uploading d) outcome =
      attempt-elim HasUncaught (file_upload_result outcome) (λ _. visit_directory-HasUncaught d)
        (λ e. append_ne_nil s.uncaught e)
  continue-HasUncaught downloading outcome =
      attempt-elim HasUncaught (file_download_result outcome) (λ _. h)
        (λ e. append_ne_nil s.uncaught e)

pub step-HasUncaught : (s : Dashboard) (e : Event) → HasUncaught s → HasUncaught (step s e)
unfolding step on_root_click go_up on_crumb_click on_item_click on_delete_click on_download_click
    on_submit on_file_chosen on_settle visit_directory
step-HasUncaught s (settle i outcome) h = elim (Option-cases (get_elem? s.tasks i)) [
  | inl missing ↦ rw (missing, on_settle) h
  | inr (task, here) ↦
      rw (here, on_settle)
        (continue-HasUncaught (record s { tasks = remove_at s.tasks i }) h task outcome)
]
step-HasUncaught s e h = grind (arith, append_ne_nil)

Blank-tasks : {s : Dashboard} (ts : List Task) → Blank s → Blank (record s { tasks = ts })
Blank-tasks ts b = record {
  stack = b.stack;
  menu = b.menu;
  contents = b.contents;
  up_button = b.up_button;
  breadcrumb = b.breadcrumb;
}

-- While the roots are awaited or missing, their answer is all that can change the phase.
pub show_roots-Phase :
    (s : Dashboard) (roots : Json) → s.tasks ≡ [] → Blank s → Phase (show_roots roots s)
unfolding show_roots visit_directory
show_roots-Phase s (entries []) t b = rootless t (record {
  stack = b.stack;
  menu = refl;
  contents = b.contents;
  up_button = b.up_button;
  breadcrumb = b.breadcrumb;
})
show_roots-Phase s (entries (root ∷ roots)) t b =
    rooted root refl
      (unfold active_roots side_menu_of in ap (root ∷◌) (active_roots-inactive roots))
      (rw t (tt, tt))
show_roots-Phase s (challenge c) t b = rootless t b
show_roots-Phase s (other_challenge c) t b = rootless t b
show_roots-Phase s other t b = rootless t b

pub settle-starting :
    (s : Dashboard) (i : ℕ) (outcome : Outcome Response)
    → s.tasks ≡ fetching_roots ∷ []
    → Blank s
    → Phase (on_settle i outcome s)
unfolding on_settle continue
settle-starting s zero outcome t b =
    let rest = record s { tasks = remove_at s.tasks 0 } in
    let blank = Blank-tasks {s = s} (remove_at s.tasks 0) b in
    rw (t, on_settle)
      (attempt-elim Phase (roots_result outcome) {f = λ roots. show_roots roots rest}
        {g = λ _. rest} (λ roots. show_roots-Phase rest roots (rw t) blank)
        (λ _. rootless (rw t) blank))
settle-starting s (suc i) outcome t b = rw (t, on_settle) (starting t b)

pub settle-rootless :
    (s : Dashboard) (i : ℕ) (outcome : Outcome Response)
    → s.tasks ≡ []
    → Blank s
    → Phase (on_settle i outcome s)
unfolding on_settle
settle-rootless s i outcome t b = rw (t, on_settle) (rootless t b)
