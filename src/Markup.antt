-- ===== src/Markup.antt =====
-- Trees of elements, as the scripts build them: what `textContent` sets is text, what `innerHTML`
-- sets is parsed as markup.
use teilpunkt.Base.{String, Str, Option, none, some, List, [], ◌∷◌, ◌++◌}

-- An element has a tag, a `className`, a `title` and children.
mutual
  pub data Node : Type 0 where
    text_node : Str → Node
    markup : Str → Node
    element : (tag class_name : String) (title : Option String) → Nodes → Node

  pub data Nodes : Type 0 where
    nil : Nodes
    cons : Node → Nodes → Nodes

-- `createElement` with only a `className` or only a tag.
abbrev pub div : String → Nodes → Node
div class_name = element "div" class_name none

abbrev pub only : Node → Nodes
only n = cons n nil

-- `textContent`, where the markup has no text: the icons are shapes.
unfoldable mutual
  pub text_content : Node → Str
  text_content (text_node s) = s
  text_content (markup h) = []
  text_content (element tag class_name title children) = text_contents children

  pub text_contents : Nodes → Str
  text_contents nil = []
  text_contents (cons n ns) = text_content n ++ text_contents ns

-- Everything that is parsed as markup.
unfoldable mutual
  pub parsed : Node → List Str
  parsed (text_node s) = []
  parsed (markup h) = h ∷ []
  parsed (element tag class_name title children) = all_parsed children

  pub all_parsed : Nodes → List Str
  all_parsed nil = []
  all_parsed (cons n ns) = parsed n ++ all_parsed ns

abbrev shown_title : Option String → List String
shown_title none = []
shown_title (some title) = title ∷ []

-- The titles of the elements, in order.
unfoldable mutual
  pub titles : Node → List String
  titles (text_node s) = []
  titles (markup h) = []
  titles (element tag class_name title children) = shown_title title ++ all_titles children

  pub all_titles : Nodes → List String
  all_titles nil = []
  all_titles (cons n ns) = titles n ++ all_titles ns
