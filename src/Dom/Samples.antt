-- ===== src/Dom/Samples.antt =====
-- Documents to test with: elements of given ids and values, as the pages have them before any
-- script has run.
use text.Mathlib.Text.{◌==◌ as str_eq}
use teilpunkt.Base.{String, Str, str, false, none, some, List, [], ◌∷◌, if◌then◌else◌}
use teilpunkt.Dom.{Element, Dom}

abbrev pub element : Str → Element
element v = record {
  value = v;
  text_content = str "";
  class_list = λ c. false;
  style = record { display = "none"; visibility = "hidden"; opacity = "1"; cursor = "auto" };
  disabled = false;
}

abbrev pub document : List (String × Str) → Dom
document [] id = none
document ((other, v) ∷ rest) id = if str_eq other id then some (element v) else document rest id
