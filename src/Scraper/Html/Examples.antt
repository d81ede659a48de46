-- ===== src/Scraper/Html/Examples.antt =====
-- A document whose article is empty.
use fire_ctrl.Prelude.{String, ◌≡◌, refl, true, false, Option, none, some, List, [], ◌∷◌, str_eq}
use fire_ctrl.Scraper.Html.{Element, Documents, extract_text, normal_text}

abbrev plain : List String → Element
plain ts = record { text = ts; attr = λ a. none }

abbrev found : String → Option (List Element)
found selector = elim (str_eq selector "article") [
  | true ↦ some (plain (" " ∷ "\n" ∷ []) ∷ [])
  | false ↦ elim (str_eq selector "body") [
    | true ↦ some (plain (" Hello " ∷ "  wide\n world" ∷ []) ∷ [])
    | false ↦ some []
  ]
]

abbrev page : Documents
page = record { select = λ html s. found s; convert = λ html. none }

body_text : extract_text page "" true ≡ "Hello wide world"
unfolding extract_text normal_text
body_text = refl
