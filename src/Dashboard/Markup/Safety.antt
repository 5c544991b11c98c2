-- ===== src/Dashboard/Markup/Safety.antt =====
-- What the user sees of the names that come from the server, and what the browser parses.
use teilpunkt.Base.{
  ℕ, suc, ◌≡◌, refl, ap, ◌∙◌, ◌⊎◌, inl, inr, Str, str, Bool, true, false, List, [], ◌∷◌, ◌++◌, map,
  append-nil, if◌then◌else◌, All, All-append, Bool-cases, arith,
}
use teilpunkt.Icons.{icon_file, icon_delete, icon_download}
use teilpunkt.Markup.{text_content, text_contents, parsed, all_parsed, titles}
use teilpunkt.Backend.Types.{Entry}
use teilpunkt.Dashboard.State.{MenuItem, Piece, crumb, slash, MenuBar, FileItem, Dashboard}
use teilpunkt.Dashboard.Render.{pieces_from, file_item}
use teilpunkt.Dashboard.Markup.{
  menu_item_nodes, side_menu_node, piece_nodes, breadcrumb_node, menu_bar_nodes, file_item_node,
  file_item_nodes, file_browser_node, page,
}

-- The names, with a slash between each two.
abbrev pub path_text : List Str → Str
path_text [] = []
path_text (name ∷ []) = name
path_text (name ∷ next ∷ rest) = name ++ (str " / " ++ path_text (next ∷ rest))

text_contents-piece_nodes :
    (k : ℕ) (stack : List Entry)
    → text_contents (piece_nodes (pieces_from k stack)) ≡ path_text (map (λ e. e.name) stack)
unfolding text_contents piece_nodes pieces_from
text_contents-piece_nodes k [] = refl
text_contents-piece_nodes k (e ∷ []) = rw (append-nil (e.name ++ []), append-nil e.name)
text_contents-piece_nodes k (e ∷ f ∷ rest) =
    rw (append-nil e.name)
      (ap (λ t. e.name ++ (str " / " ++ t)) (text_contents-piece_nodes (suc k) (f ∷ rest)))

-- What is parsed as markup is one of the icons.
abbrev pub IsIcon : Str → Type 0
IsIcon h =
    (h ≡ str (icon_file true))
    ⊎ (h ≡ str (icon_file false))
    ⊎ (h ≡ str icon_delete)
    ⊎ (h ≡ str icon_download)

menu_item_nodes-IsIcon : (items : List MenuItem) → All IsIcon (all_parsed (menu_item_nodes items))
unfolding all_parsed menu_item_nodes
menu_item_nodes-IsIcon [] = tt
menu_item_nodes-IsIcon (item ∷ items) = menu_item_nodes-IsIcon items

piece_nodes-IsIcon : (pieces : List Piece) → All IsIcon (all_parsed (piece_nodes pieces))
unfolding all_parsed piece_nodes
piece_nodes-IsIcon [] = tt
piece_nodes-IsIcon (crumb e i ∷ pieces) = piece_nodes-IsIcon pieces
piece_nodes-IsIcon (slash ∷ pieces) = piece_nodes-IsIcon pieces

icon_file-IsIcon : (b : Bool) → IsIcon (str (icon_file b))
icon_file-IsIcon true = inl refl
icon_file-IsIcon false = inr (inl refl)

file_item_node-IsIcon : (item : FileItem) → All IsIcon (parsed (file_item_node item))
unfolding parsed file_item_node
file_item_node-IsIcon item = elim (Bool-cases item.download_button) [
  | inl download ↦
      rw download
        (icon_file-IsIcon item.entry.is_file, (inr (inr (inr refl)), (inr (inr (inl refl)), tt)))
  | inr none_there ↦ rw none_there (icon_file-IsIcon item.entry.is_file, (inr (inr (inl refl)), tt))
]

file_item_nodes-IsIcon : (items : List FileItem) → All IsIcon (all_parsed (file_item_nodes items))
unfolding all_parsed file_item_nodes
file_item_nodes-IsIcon [] = tt
file_item_nodes-IsIcon (item ∷ items) =
    All-append IsIcon (parsed (file_item_node item)) _ (file_item_node-IsIcon item)
      (file_item_nodes-IsIcon items)

menu_bar_nodes-IsIcon : (bar : MenuBar) → All IsIcon (all_parsed (menu_bar_nodes bar))
unfolding menu_bar_nodes all_parsed
menu_bar_nodes-IsIcon bar = elim (Bool-cases bar.up_button) [
  | inl up ↦ elim (Bool-cases bar.add_file_container) [
    | inl there ↦ rw (up, there) (All-append IsIcon _ [] (piece_nodes-IsIcon bar.breadcrumb) tt)
    | inr gone ↦ rw (up, gone) (All-append IsIcon _ [] (piece_nodes-IsIcon bar.breadcrumb) tt)
  ]
  | inr at_root ↦ elim (Bool-cases bar.add_file_container) [
    | inl there ↦
        rw (at_root, there) (All-append IsIcon _ [] (piece_nodes-IsIcon bar.breadcrumb) tt)
    | inr gone ↦ rw (at_root, gone) (All-append IsIcon _ [] (piece_nodes-IsIcon bar.breadcrumb) tt)
  ]
]

-- Whatever names the roots, directories and files have, all that the dashboard has parsed as markup
-- are the icons of files, directories, deletion and download.
pub page-IsIcon : (s : Dashboard) → All IsIcon (all_parsed (page s))
unfolding page all_parsed side_menu_node file_browser_node
page-IsIcon s =
    All-append IsIcon (all_parsed (menu_item_nodes s.side_menu) ++ []) _
      (All-append IsIcon (all_parsed (menu_item_nodes s.side_menu)) []
        (menu_item_nodes-IsIcon s.side_menu) tt)
      (All-append IsIcon (all_parsed (menu_bar_nodes s.menu_bar)) _
        (menu_bar_nodes-IsIcon s.menu_bar)
        (All-append IsIcon _ ([] ++ [])
          (All-append IsIcon _ [] (file_item_nodes-IsIcon s.contents) tt) tt))

-- The breadcrumb of a stack reads as the names on it with slashes between them. The row of an entry
-- reads as its name alone; it has a button to delete, and before it one to download if and only if
-- the entry is a file.
page-text :
    (stack : List Entry) (e : Entry)
    → (text_content (breadcrumb_node (pieces_from 0 stack)) ≡ path_text (map (λ x. x.name) stack))
      × (text_content (file_item_node (file_item e)) ≡ e.name)
      × (titles (file_item_node (file_item e))
          ≡ (if e.is_file then "Download" ∷ "Delete" ∷ [] else "Delete" ∷ []))
unfolding text_content breadcrumb_node file_item_node titles
page-text stack e = (
  text_contents-piece_nodes 0 stack,
  elim (Bool-cases e.is_file) [
    | inl file ↦ rw file (append-nil (e.name ++ []) ∙ append-nil e.name)
    | inr directory ↦ rw directory (append-nil (e.name ++ []) ∙ append-nil e.name)
  ],
  ground arith,
)
