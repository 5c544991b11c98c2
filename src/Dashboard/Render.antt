-- ===== src/Dashboard/Render.antt =====
-- What frontend/js/dashboard.js renders: renderSideMenu, renderBreadcrumb and
-- renderDirectoryContents, and the highlighted root.
use teilpunkt.Base.{ℕ, zero, suc, true, false, Option, none, some, List, [], ◌∷◌, map, ltb, length}
use teilpunkt.Backend.Types.{Entry}
use teilpunkt.Dashboard.State.{MenuItem, Piece, crumb, slash, FileItem, Dashboard}

-- `renderSideMenu`: the first root is the active one.
unfoldable pub inactive : List Entry → List MenuItem
inactive [] = []
inactive (root ∷ roots) = record { root = root; active = false } ∷ inactive roots

unfoldable pub side_menu_of : List Entry → List MenuItem
unfolding inactive
side_menu_of [] = []
side_menu_of (root ∷ roots) = record { root = root; active = true } ∷ inactive roots

-- The breadcrumb of the entries from position `index` on: a slash stands after all but the last.
unfoldable pub pieces_from : ℕ → List Entry → List Piece
pieces_from index [] = []
pieces_from index (entry ∷ []) = crumb entry index ∷ []
pieces_from index (entry ∷ next ∷ rest) =
    crumb entry index ∷ slash ∷ pieces_from (suc index) (next ∷ rest)

-- `renderBreadcrumb`; the container of the buttons is put back if it was there.
unfoldable pub render_breadcrumb : Dashboard → Dashboard
unfolding pieces_from
render_breadcrumb s = record s {
  menu_bar = record (s.menu_bar) {
    up_button = ltb 1 (length s.navigation_stack);
    breadcrumb = pieces_from 0 s.navigation_stack;
  };
}

abbrev pub file_item : Entry → FileItem
file_item entry = record { entry = entry; download_button = entry.is_file }

-- `renderDirectoryContents`
unfoldable pub render_directory_contents : List Entry → Dashboard → Dashboard
render_directory_contents es s = record s { contents = map file_item es }

-- The crumb with this position in the breadcrumb, if it is there.
unfoldable pub crumb_at : ℕ → List Piece → Option (Entry × ℕ)
crumb_at i [] = none
crumb_at i (slash ∷ pieces) = crumb_at i pieces
crumb_at zero (crumb entry index ∷ pieces) = some (entry, index)
crumb_at (suc i) (crumb entry index ∷ pieces) = crumb_at i pieces

-- The click on a root: it alone becomes active.
unfoldable pub deactivate : List MenuItem → List MenuItem
deactivate [] = []
deactivate (item ∷ items) = record item { active = false } ∷ deactivate items

unfoldable pub activate : ℕ → List MenuItem → List MenuItem
unfolding deactivate
activate i [] = []
activate zero (item ∷ items) = record item { active = true } ∷ deactivate items
activate (suc i) (item ∷ items) = record item { active = false } ∷ activate i items
