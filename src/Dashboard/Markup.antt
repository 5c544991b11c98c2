-- ===== src/Dashboard/Markup.antt =====
-- The elements that frontend/js/dashboard.js builds for what its state says is rendered.
pub mod Safety
use teilpunkt.Base.{
  ℕ, zero, suc, ◌+◌, String, Str, str, Bool, true, false, Option, none, some, List, [], ◌∷◌,
  if◌then◌else◌,
}
use teilpunkt.Icons.{icon_file, icon_delete, icon_download}
use teilpunkt.Markup.{Node, text_node, markup, element, Nodes, nil, cons, div, only}
use teilpunkt.Dashboard.State.{MenuItem, Piece, crumb, slash, MenuBar, FileItem, Dashboard}

-- `renderSideMenu`: an item of the menu
menu_item_node : MenuItem → Node
menu_item_node item =
    element "li" (if item.active then "active" else "") none (only (text_node item.root.name))

menu_item_nodes : List MenuItem → Nodes
unfolding menu_item_node
menu_item_nodes [] = nil
menu_item_nodes (item ∷ items) = cons (menu_item_node item) (menu_item_nodes items)

pub side_menu_node : List MenuItem → Node
unfolding menu_item_nodes
side_menu_node items = element "ul" "" none (menu_item_nodes items)

-- `renderBreadcrumb`
piece_node : Piece → Node
piece_node (crumb entry index) =
    element "span" "breadcrumb-entry" none (only (text_node entry.name))
piece_node slash = text_node (str " / ")

piece_nodes : List Piece → Nodes
unfolding piece_node
piece_nodes [] = nil
piece_nodes (piece ∷ pieces) = cons (piece_node piece) (piece_nodes pieces)

unfoldable pub breadcrumb_node : List Piece → Node
unfolding piece_nodes
breadcrumb_node pieces = div "breadcrumb" (piece_nodes pieces)

-- The container of the buttons that add files, as the page declares it.
abbrev add_file_container : Node
add_file_container = div "add-file-container" (
    cons (element "button" "add-file-button" none (only (text_node (str "+"))))
      (only (element "button" "button" none (only (text_node (str "Upload"))))))

unfoldable pub menu_bar_nodes : MenuBar → Nodes
unfolding breadcrumb_node
menu_bar_nodes bar =
    let container = if bar.add_file_container then only add_file_container else nil in
    let rest = cons (breadcrumb_node bar.breadcrumb) container in
    if bar.up_button
    then cons (element "button" "up-button" none (only (text_node (str "Up")))) rest
    else rest

-- `renderDirectoryContents`: a row, with its buttons
file_action : String → String → Node
file_action title icon = element "button" "file-action" (some title) (only (markup (str icon)))

unfoldable pub file_item_node : FileItem → Node
unfolding icon_file icon_delete icon_download file_action
file_item_node item =
    let delete_button = only (file_action "Delete" icon_delete) in
    div "file-item" (
      cons (div "file-icon" (only (markup (str (icon_file item.entry.is_file))))) (
        cons (div "file-name" (only (text_node item.entry.name))) (
          only (
            div "file-actions" (
              if item.download_button
              then cons (file_action "Download" icon_download) delete_button
              else delete_button)))))

file_item_nodes : List FileItem → Nodes
unfolding file_item_node
file_item_nodes [] = nil
file_item_nodes (item ∷ items) = cons (file_item_node item) (file_item_nodes items)

unfoldable pub file_browser_node : List FileItem → Node
unfolding file_item_nodes
file_browser_node items = div "file-browser" (file_item_nodes items)

-- The side menu, the bar and the main part. Before the first answers the menu and the main part hold
-- no list yet, which shows as an empty one.
unfoldable pub page : Dashboard → Nodes
unfolding side_menu_node menu_bar_nodes file_browser_node
page s = cons (element "nav" "side-menu" none (only (side_menu_node s.side_menu))) (
    cons (element "div" "menu-bar" none (menu_bar_nodes s.menu_bar))
      (only (element "main" "main-content" none (only (file_browser_node s.contents)))))
