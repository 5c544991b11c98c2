-- ===== src/Dashboard/Sessions.antt =====
-- The dashboard under several clicks and answers: the theorems of Consistency and of Races at
-- concrete sessions.
use teilpunkt.Base.{◌≡◌, refl, List, [], ◌∷◌, Str, str, eq_str, length, All, if◌then◌else◌}
use teilpunkt.Backend.Types.{Entry}
use teilpunkt.Backend.{
  fetch_with_error_handling, dir_lookup_result, done_result, dir_lookup_request,
  file_delete_request,
}
use teilpunkt.Dashboard.State.{Dashboard, crumb_click, item_click, delete_click, settle}
use teilpunkt.Dashboard.Render.{pieces_from, file_item}
use teilpunkt.Dashboard.Navigation.{IsFresh}
use teilpunkt.Dashboard.Races.{delete_click-item_click}
use teilpunkt.Markup.{all_parsed}
use teilpunkt.Dashboard.Markup.{page}
use teilpunkt.Dashboard.Markup.Safety.{IsIcon, page-IsIcon}
use teilpunkt.Dashboard.Tests.{home, docs, note, listing, inside}
use teilpunkt.Dashboard.{load, step}

-- The root holds a directory, and that a file.
abbrev content : Str → List Entry
content dir_id = if eq_str dir_id (str "1") then docs ∷ [] else note ∷ []

abbrev started : Dashboard
started = step load (settle 0 (listing (home ∷ [])))

abbrev rooted : Dashboard
rooted = step started (settle 0 (listing (docs ∷ [])))

-- Into the directory, and back by the crumb of the root, before the answer.
abbrev hurried : Dashboard
hurried = step (step rooted (item_click 0)) (crumb_click 0)

abbrev entered : Dashboard
entered = step (step hurried (settle 0 (listing (note ∷ [])))) (settle 0 (listing (docs ∷ [])))

-- In the root, which still shows the file.
abbrev at_home : Dashboard
at_home = record inside { navigation_stack = home ∷ [] }

delete_click-item_click_example :
    let clicked = step (step at_home (delete_click 1)) (item_click 0) in
    let s' =
      step
        (step (step clicked (settle 0 (listing []))) (settle 0 (listing (note ∷ []))))
        (settle 0 (listing (docs ∷ []))) in
    (s'.tasks ≡ [])
    × (s'.sent
        ≡ file_delete_request (str "3")
          ∷ dir_lookup_request (str "2")
          ∷ dir_lookup_request (str "1")
          ∷ [])
    × (s'.contents ≡ file_item docs ∷ [])
    × (s'.navigation_stack ≡ home ∷ docs ∷ [])
    × IsFresh s'
unfolding dir_lookup_result done_result fetch_with_error_handling eq_str
delete_click-item_click_example =
    delete_click-item_click content at_home 1 0 (listing []) (listing (note ∷ []))
      (listing (docs ∷ [])) refl refl refl refl refl refl refl refl

page-IsIcon_example : All IsIcon (all_parsed (page inside))
page-IsIcon_example = page-IsIcon inside

-- The page has five icons then: two for the directory and three for the file.
page_test : length (all_parsed (page inside)) ≡ 5
unfolding all_parsed page pieces_from
page_test = refl
