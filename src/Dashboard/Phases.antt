-- ===== src/Dashboard/Phases.antt =====
-- Which phases the page of frontend/js/dashboard.js goes through, and what they say of the side menu
-- and of the navigation stack.
use teilpunkt.Base.{ℕ, ◌≡◌, refl, sym, ◌∙◌, some, List, [], ◌∷◌, if-elim, head?, take, All}
use teilpunkt.Backend.Types.{Outcome, Entry, Response}
use teilpunkt.Dashboard.State.{
  Dashboard, Event, root_click, crumb_click, item_click, up_click, delete_click, download_click,
  profile_click, add_file_click, close_click, window_click, submit, file_chosen, settle,
}
use teilpunkt.Dashboard.{step, run, load}
use teilpunkt.Dashboard.Menu.{
  active_roots, IsLater, Phase, starting, rootless, failed, rooted, IsClick, click-Blank,
  step-HasUncaught, settle-starting, settle-rootless,
}
use teilpunkt.Dashboard.Rooted.{
  root_click-Phase, up_click-Phase, crumb_click-Phase, item_click-Phase, delete_click-Phase,
  download_click-Phase, submit-Phase, file_chosen-Phase, settle-rooted,
}

rooted-Phase :
    (s : Dashboard) (e : Event) (root : Entry)
    → head? s.navigation_stack ≡ some root
    → active_roots s.side_menu ≡ root ∷ []
    → All IsLater s.tasks
    → Phase (step s e)
unfolding step
rooted-Phase s (root_click i) root b a l = root_click-Phase s root b a l i
rooted-Phase s (crumb_click i) root b a l = crumb_click-Phase s root b a l i
rooted-Phase s (item_click i) root b a l = item_click-Phase s root b a l i
rooted-Phase s (delete_click i) root b a l = delete_click-Phase s root b a l i
rooted-Phase s (download_click i) root b a l = download_click-Phase s root b a l i
rooted-Phase s up_click root b a l =
    if-elim Phase s.menu_bar.up_button (up_click-Phase s root b a l) (rooted root b a l)
rooted-Phase s profile_click root b a l = rooted root b a l
rooted-Phase s add_file_click root b a l = rooted root b a l
rooted-Phase s close_click root b a l = rooted root b a l
rooted-Phase s (window_click on_modal) root b a l =
    if-elim Phase on_modal (rooted root b a l) (rooted root b a l)
rooted-Phase s (submit name file_type) root b a l = submit-Phase s root b a l name file_type
rooted-Phase s (file_chosen f) root b a l = file_chosen-Phase s root b a l f
rooted-Phase s (settle i outcome) root b a l = settle-rooted s i outcome root b a l

click-Phase : (s : Dashboard) (e : Event) → IsClick e → Phase s → Phase (step s e)
click-Phase s e c (starting t b) = let (b', t') = click-Blank s e c b in starting (t' ∙ t) b'
click-Phase s e c (rootless t b) = let (b', t') = click-Blank s e c b in rootless (t' ∙ t) b'
click-Phase s e c (failed h) = failed (step-HasUncaught s e h)
click-Phase s e c (rooted root b a l) = rooted-Phase s e root b a l

settle-Phase :
    (s : Dashboard) (i : ℕ) (outcome : Outcome Response)
    → Phase s
    → Phase (step s (settle i outcome))
settle-Phase s i outcome (starting t b) = unfold step in settle-starting s i outcome t b
settle-Phase s i outcome (rootless t b) = unfold step in settle-rootless s i outcome t b
settle-Phase s i outcome (failed h) = failed (step-HasUncaught s (settle i outcome) h)
settle-Phase s i outcome (rooted root b a l) = rooted-Phase s (settle i outcome) root b a l

-- Every event leads from one phase to another.
step-Phase : (s : Dashboard) (e : Event) → Phase s → Phase (step s e)
step-Phase s (settle i outcome) p = settle-Phase s i outcome p
step-Phase s e p = click-Phase s e tt p

run-Phase : (s : Dashboard) (events : List Event) → Phase s → Phase (run s events)
unfolding run
run-Phase s [] p = p
run-Phase s (e ∷ es) p = run-Phase (step s e) es (step-Phase s e p)

load-Phase : Phase load
unfolding load
load-Phase =
    starting refl
      (record { stack = refl; menu = refl; contents = refl; up_button = refl; breadcrumb = refl })

take_bottom : (stack : List Entry) {x : Entry} → head? stack ≡ some x → take 1 stack ≡ x ∷ []
take_bottom [] h = cc
take_bottom (y ∷ stack) h = cc

Phase-highlight :
    (s : Dashboard)
    → Phase s
    → s.uncaught ≡ []
    → active_roots s.side_menu ≡ take 1 s.navigation_stack
unfolding active_roots
Phase-highlight s (starting t b) none_raised = rw (b.stack, b.menu)
Phase-highlight s (rootless t b) none_raised = rw (b.stack, b.menu)
Phase-highlight s (failed h) none_raised = absurd (h none_raised)
Phase-highlight s (rooted root b a l) none_raised = a ∙ sym (take_bottom s.navigation_stack b)

-- Whatever happens on the page in whatever order, as long as no error has gone uncaught: the bottom
-- of the navigation stack is highlighted in the side menu, and no other root; if the stack is empty,
-- none is.
pub run-highlight :
    (events : List Event)
    → (run load events).uncaught ≡ []
    → active_roots (run load events).side_menu ≡ take 1 (run load events).navigation_stack
run-highlight events = Phase-highlight (run load events) (run-Phase load events load-Phase)
