-- ===== src/Dashboard/Navigation.antt =====
-- Where the clicks of frontend/js/dashboard.js navigate to.
use mathlib.Core.Option
use teilpunkt.Base.{
  ℕ, zero, suc, ◌+◌, ◌≡◌, refl, ap, ◌∙◌, true, false, some, List, [], ◌∷◌, ◌++◌, ltb, length,
  get_elem?, get_last?, get_last?-append, get_last?-take, take, drop_last, arith, ◌<◌,
}
use teilpunkt.Backend.Types.{Entry}
use teilpunkt.Backend.{dir_lookup_request}
use teilpunkt.Dashboard.State.{
  MenuItem, FileItem, Dashboard, looking_up, root_click, crumb_click, item_click, up_click,
}
use teilpunkt.Dashboard.Render.{pieces_from, crumb_at}
use teilpunkt.Dashboard.Clicks.{
  type_error, visit_directory, on_root_click, go_up, on_crumb_click, on_item_click,
}
use teilpunkt.Dashboard.{step}

-- The bar shows the navigation stack as it is.
pub record IsFresh (s : Dashboard) : Type 0 where
  pub up_button : s.menu_bar.up_button ≡ ltb 1 (length s.navigation_stack)
  pub breadcrumb : s.menu_bar.breadcrumb ≡ pieces_from 0 s.navigation_stack

-- From `s`, the stack becomes `stack`, and its top is the one directory that is looked up.
pub record VisitsTop (s s' : Dashboard) (stack : List Entry) : Type 0 where
  pub top : Entry
  pub navigation_stack : s'.navigation_stack ≡ stack
  pub is_top : get_last? stack ≡ some top
  pub tasks : s'.tasks ≡ s.tasks ++ looking_up top.fid ∷ []
  pub sent : s'.sent ≡ s.sent ++ dir_lookup_request top.fid ∷ []
  pub uncaught : s'.uncaught ≡ s.uncaught

pub crumb_at-pieces_from :
    (i k : ℕ) (stack : List Entry)
    → crumb_at i (pieces_from k stack) ≡ Option.map (λ e. (e, k + i)) (get_elem? stack i)
unfolding crumb_at pieces_from
crumb_at-pieces_from i k [] = refl
crumb_at-pieces_from zero k (e ∷ []) = ground arith
crumb_at-pieces_from (suc i) k (e ∷ []) = refl
crumb_at-pieces_from zero k (e ∷ f ∷ rest) = ground arith
crumb_at-pieces_from (suc i) k (e ∷ f ∷ rest) =
    crumb_at-pieces_from i (suc k) (f ∷ rest)
    ∙ ap (λ (n : ℕ). Option.map (λ (x : Entry). (x, n)) (get_elem? (f ∷ rest) i)) (omega arith)

-- A click on a root leaves only that root on the stack, and visits it.
pub root_click-VisitsTop :
    (s : Dashboard) (i : ℕ) {item : MenuItem}
    → get_elem? s.side_menu i ≡ some item
    → VisitsTop s (step s (root_click i)) (item.root ∷ [])
unfolding step on_root_click visit_directory
root_click-VisitsTop s i {item} here =
    rw (here, on_root_click)
      (record {
        top = item.root;
        navigation_stack = refl;
        is_top = refl;
        tasks = refl;
        sent = refl;
        uncaught = refl;
      })

-- A click on a directory puts it on the stack, and visits it.
pub item_click-VisitsTop :
    (s : Dashboard) (i : ℕ) {item : FileItem}
    → get_elem? s.contents i ≡ some item
    → item.entry.is_file ≡ false
    → VisitsTop s (step s (item_click i)) (s.navigation_stack ++ item.entry ∷ [])
unfolding step on_item_click visit_directory
item_click-VisitsTop s i {item} here directory = record {
  top = item.entry;
  navigation_stack = ground arith;
  is_top = get_last?-append s.navigation_stack item.entry;
  tasks = ground arith;
  sent = ground arith;
  uncaught = ground arith;
}

-- A click on a crumb that names what is at its position on the stack cuts the stack there, and visits
-- it, whether the bar is fresh or not.
pub named_crumb_click-VisitsTop :
    (s : Dashboard) (i index : ℕ) {entry : Entry}
    → crumb_at i s.menu_bar.breadcrumb ≡ some (entry, index)
    → get_elem? s.navigation_stack index ≡ some entry
    → VisitsTop s (step s (crumb_click i)) (take (suc index) s.navigation_stack)
unfolding step on_crumb_click visit_directory
named_crumb_click-VisitsTop s i index {entry} clicked here =
    rw (clicked, on_crumb_click)
      (record {
        top = entry;
        navigation_stack = refl;
        is_top = get_last?-take s.navigation_stack index here;
        tasks = refl;
        sent = refl;
        uncaught = refl;
      })

-- While the bar is fresh, a click on the crumb of an entry cuts the stack behind that entry, and
-- visits it.
crumb_click-VisitsTop :
    (s : Dashboard) (i : ℕ) {entry : Entry}
    → IsFresh s
    → get_elem? s.navigation_stack i ≡ some entry
    → VisitsTop s (step s (crumb_click i)) (take (suc i) s.navigation_stack)
crumb_click-VisitsTop s i {entry} fresh here =
    let clicked : crumb_at i s.menu_bar.breadcrumb ≡ some (entry, i) = rw fresh.breadcrumb (
      crumb_at-pieces_from i 0 s.navigation_stack
      ∙ rw here (ap (λ (n : ℕ). some (entry, n)) (omega arith))) in
    named_crumb_click-VisitsTop s i i clicked here

-- A stack of two or more has something left on it after a `pop`.
get_last?-drop_last :
    {A : Type 0} (xs : List A) → 1 < length xs → (x : A) × (get_last? (drop_last xs) ≡ some x)
get_last?-drop_last [] h = absurd (omega arith)
get_last?-drop_last (x ∷ []) h = absurd (omega arith)
get_last?-drop_last (x ∷ y ∷ []) h = (x, refl)
get_last?-drop_last (x ∷ y ∷ z ∷ xs) h = get_last?-drop_last (y ∷ z ∷ xs) (omega arith)

-- While the bar is fresh, the button `Up` takes the top off the stack, and visits the entry below.
pub up_click-VisitsTop :
    (s : Dashboard)
    → IsFresh s
    → s.menu_bar.up_button ≡ true
    → VisitsTop s (step s up_click) (drop_last s.navigation_stack)
unfolding step go_up visit_directory
up_click-VisitsTop s fresh shown =
    let (top, last) = get_last?-drop_last s.navigation_stack (ground (arith, fresh.up_button)) in
    record {
      top = top;
      navigation_stack = ground arith;
      is_top = last;
      tasks = ground arith;
      sent = ground arith;
      uncaught = ground arith;
    }

-- Two clicks on `Up` before the first is answered empty a stack of two: the second raises an error
-- that nothing catches, and visits nothing.
up_click-up_click :
    (s : Dashboard) {root top : Entry}
    → s.navigation_stack ≡ root ∷ top ∷ []
    → s.menu_bar.up_button ≡ true
    → let once = step s up_click in
      let twice = step once up_click in
      (twice.navigation_stack ≡ [])
      × (twice.uncaught ≡ s.uncaught ++ type_error ∷ [])
      × (twice.sent ≡ once.sent)
unfolding step go_up visit_directory
up_click-up_click s two shown = ground arith
