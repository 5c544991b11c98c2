-- ===== src/Dashboard/Browsing.antt =====
-- Browsing in frontend/js/dashboard.js: the clicks that send lookups and the answers to them, and
-- what it means that the page keeps up with its navigation stack.
use teilpunkt.Base.{
  ℕ, get_elem?, ◌≡◌, ◌≢◌, ◌∙◌, ◌⊎◌, some, List, [], ◌∷◌, ◌++◌, Str, map, get_last?, All, All-append,
  inl, inr,
}
use teilpunkt.Backend.Types.{Outcome, fulfilled, Entry, entries, Response}
use teilpunkt.Backend.{dir_lookup_result}
use teilpunkt.Dashboard.State.{
  Task, looking_up, Dashboard, Event, root_click, crumb_click, item_click, up_click, profile_click,
  add_file_click, close_click, window_click, settle,
}
use teilpunkt.Dashboard.Render.{file_item, crumb_at}
use teilpunkt.Dashboard.Navigation.{IsFresh, VisitsTop}
use teilpunkt.Dashboard.{step}

abbrev pub IsLookup : Task → Type 0
IsLookup (looking_up dir_id) = Unit
IsLookup _ = ⊥

-- What the user may do while browsing: all that sends nothing but lookups. Of the crumbs, those that
-- still name what is at their position on the stack: all of them while the bar is fresh, but not, for
-- instance, the last one after `Up` and before the answer.
abbrev pub MayClick : Dashboard → Event → Type 0
MayClick s (root_click i) = Unit
MayClick s (item_click i) = Unit
MayClick s up_click = Unit
MayClick s (crumb_click i) =
    (entry : Entry) (index : ℕ)
    → crumb_at i s.menu_bar.breadcrumb ≡ some (entry, index)
    → get_elem? s.navigation_stack index ≡ some entry
MayClick s profile_click = Unit
MayClick s add_file_click = Unit
MayClick s close_click = Unit
MayClick s (window_click on_modal) = Unit
MayClick s _ = ⊥

-- What the server has in each directory.
module _ (listing : Str → List Entry) where
  -- One step of browsing: a click, or the answer to the lookup that has waited longest.
  pub data Browses (s : Dashboard) : Dashboard → Type 0 where
    click : (e : Event) → MayClick s e → Browses s (step s e)
    answer :
        (dir_id : Str) (rest : List Task) (outcome : Outcome Response)
        → s.tasks ≡ looking_up dir_id ∷ rest
        → dir_lookup_result outcome ≡ fulfilled (entries (listing dir_id))
        → Browses s (step s (settle 0 outcome))

  pub data Reaches (s : Dashboard) : Dashboard → Type 0 where
    here : Reaches s s
    next : {t u : Dashboard} → Reaches s t → Browses t u → Reaches s u

  -- The page shows the directory on top of the stack.
  pub record ShowsTop (s : Dashboard) : Type 0 where
    pub top : Entry
    pub is_top : get_last? s.navigation_stack ≡ some top
    pub contents : s.contents ≡ map file_item (listing top.fid)
    pub fresh : IsFresh s

  -- It shows that directory, or the last of the lookups under way is for it, or else some error has
  -- gone uncaught.
  pub data InStep (s : Dashboard) : Type 0 where
    shown : s.tasks ≡ [] → ShowsTop s → InStep s
    waiting :
        (earlier : List Task) (top : Entry)
        → All IsLookup earlier
        → get_last? s.navigation_stack ≡ some top
        → s.tasks ≡ earlier ++ looking_up top.fid ∷ []
        → InStep s
    failed : s.uncaught ≢ [] → InStep s

  pub visit-InStep :
      (s s' : Dashboard) (stack : List Entry)
      → All IsLookup s.tasks
      → VisitsTop s s' stack
      → InStep s'
  visit-InStep s s' stack lookups v =
      waiting s.tasks v.top lookups (rw (v.navigation_stack) v.is_top) v.tasks

  -- What browsing leaves alone.
  pub same-InStep :
      (s s' : Dashboard)
      → s'.navigation_stack ≡ s.navigation_stack
      → s'.tasks ≡ s.tasks
      → s'.contents ≡ s.contents
      → s'.menu_bar ≡ s.menu_bar
      → s'.uncaught ≡ s.uncaught
      → InStep s
      → InStep s'
  same-InStep s s' n t c b u (shown none_left at_top) = shown (t ∙ none_left) (record {
    top = at_top.top;
    is_top = rw n at_top.is_top;
    contents = c ∙ at_top.contents;
    fresh = record {
      up_button = rw (b, n) at_top.fresh.up_button;
      breadcrumb = rw (b, n) at_top.fresh.breadcrumb;
    };
  })
  same-InStep s s' n t c b u (waiting earlier top lookups is_top under_way) =
      waiting earlier top lookups (rw n is_top) (t ∙ under_way)
  same-InStep s s' n t c b u (failed h) = failed (rw u h)

  -- The lookups under way, unless an error has gone uncaught.
  pub InStep-lookups : (s : Dashboard) → InStep s → (s.uncaught ≢ []) ⊎ All IsLookup s.tasks
  InStep-lookups s (shown t at_top) = inr (rw t tt)
  InStep-lookups s (waiting earlier top lookups is_top under_way) =
      inr (rw under_way (All-append IsLookup earlier _ lookups (tt, tt)))
  InStep-lookups s (failed h) = inl h
