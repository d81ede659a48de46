-- ===== src/Scraper/Html.antt =====
-- The HTML helpers of src/scraper.rs over a document library, and how the scrape of a page uses them.
mod Examples
use Prim.Native.Char.{Char, code}
use Prim.Native.String.{[] as empty, ◌∷◌ as cons, ◌++◌}
use fire_ctrl.Prelude.{
  ℕ, ◌≤◌, String, ◌≡◌, ◌⊎◌, refl, Bool, true, false, not, ◌&&◌, Option, none, some, List, [], ◌∷◌,
  map, filter_map, keep, take, first, length, or_else, unwrap_or, arith, Bool-cases, inl, inr,
  Option-cases, All, ◌++◌ as list_append, length-take-le, if◌then◌else◌,
}
use fire_ctrl.Prelude.Text.{is_whitespace, is_empty, trim, take_chars}
use fire_ctrl.Prelude.Lines.{joined}
use fire_ctrl.Models.{Json, Items, Fields}
use fire_ctrl.Scraper.Page.{Web, extract_links}

-- An element: its pieces of text, and its attributes.
pub record Element : Type 0 where
  pub text : List String
  pub attr : String → Option String

-- What the library reads: the elements that a selector finds in a document, none where the selector
-- is not one; and the conversion to markdown, which may fail.
pub record Documents : Type 0 where
  pub select : String → String → Option (List Element)
  pub convert : String → Option String

-- `concat`.
abbrev concat : List String → String
concat [] = ""
concat (s ∷ ss) = s ++ concat ss

-- The pieces between white space, with the piece that the text begins with, which may be empty.
unfoldable pub pieces : String → List String
unfolding is_whitespace
pieces empty = empty ∷ []
pieces (cons c s) =
    let rest = pieces s in if is_whitespace (code c) then empty ∷ rest else onto c rest
  where
    onto : Char → List String → List String
    onto c [] = cons c empty ∷ []
    onto c (t ∷ ts) = cons c t ∷ ts

-- `split_whitespace`.
abbrev pub split_whitespace : String → List String
split_whitespace s = keep (λ t. not (is_empty t)) (pieces s)

-- The text of an element with single spaces.
unfoldable pub normal_text : Element → String
unfolding pieces joined
normal_text e = joined " " (split_whitespace (joined " " e.text))

abbrev non_empty : String → Option String
non_empty s = if is_empty s then none else some s

-- The first element that a selector finds.
abbrev first_of : Documents → String → String → Option Element
first_of d html selector = elim (d.select html selector) [ none ↦ none | some es ↦ first es ]

pub extract_title : Documents → String → Option String
unfolding trim
extract_title d html = elim (first_of d html "title") [
  | none ↦ none
  | some e ↦ some (trim (concat e.text))
]

pub html_to_markdown : Documents → String → String
html_to_markdown d html = unwrap_or "" (d.convert html)

-- The text of the first element, if it is not empty.
abbrev pub region_text : Documents → String → String → Option String
region_text d html selector = elim (first_of d html selector) [
  | none ↦ none
  | some e ↦ non_empty (normal_text e)
]

-- The loop over the candidates.
pub first_text : Documents → String → List String → String
unfolding normal_text
first_text d html [] = ""
first_text d html (c ∷ cs) =
    let rest = first_text d html cs in elim (region_text d html c) [ none ↦ rest | some t ↦ t ]

unfoldable pub extract_text : Documents → String → Bool → String
unfolding first_text
extract_text d html prefer_main_content = first_text d html (
    if prefer_main_content then "article" ∷ "main" ∷ "[role='main']" ∷ "body" ∷ [] else "body" ∷ [])

text_of_first : Documents → String → String → Option String
unfolding normal_text
text_of_first = region_text

abbrev meta_content : Documents → String → String → Option String
meta_content d html selector = elim (first_of d html selector) [
  | none ↦ none
  | some e ↦ elim (e.attr "content") [ none ↦ none | some c ↦ non_empty (trim c) ]
]

-- The first selector whose element has a content.
first_meta_content : Documents → String → List String → Option String
unfolding trim
first_meta_content d html [] = none
first_meta_content d html (s ∷ ss) = or_else (meta_content d html s) (first_meta_content d html ss)

collect_text : Documents → String → String → ℕ → List String
unfolding normal_text
collect_text d html selector max_items = elim (d.select html selector) [
  | none ↦ []
  | some es ↦ take max_items (filter_map (λ e. non_empty (normal_text e)) es)
]

abbrev text_or_null : Option String → Json
text_or_null none = Json.null
text_or_null (some s) = Json.string s

abbrev texts : List String → Json
texts ss = Json.array (go ss)
  where
    go : List String → Items
    go [] = Items.nil
    go (s ∷ ss) = Items.cons (Json.string s) (go ss)

-- `links` are those of `extract_links`.
pub structured_json : Documents → List String → String → Json
unfolding text_of_first first_meta_content collect_text extract_text take_chars
structured_json d links html = Json.object (
    Fields.field "title" (text_or_null (text_of_first d html "title")) (
      Fields.field "description"
        (text_or_null (
          first_meta_content d html (
            "meta[name='description']" ∷ "meta[property='og:description']"
            ∷ "meta[name='twitter:description']" ∷ [])))
        (Fields.field "headings"
          (Json.object (
            Fields.field "h1" (texts (collect_text d html "h1" 10)) (
              Fields.field "h2" (texts (collect_text d html "h2" 20))
                (Fields.field "h3" (texts (collect_text d html "h3" 30)) Fields.end))))
          (Fields.field "paragraphs" (texts (collect_text d html "p" 30)) (
            Fields.field "links" (texts (take 200 links)) (
              Fields.field "text" (Json.string (take_chars 3000 (extract_text d html true)))
                Fields.end))))))

abbrev hrefs_of : Documents → String → List String
hrefs_of d html = elim (d.select html "a[href]") [
  | none ↦ []
  | some es ↦ filter_map (λ e. e.attr "href") es
]

-- The outside of a scrape with these readings of documents.
pub with_documents : Documents → Web → Web
unfolding extract_title html_to_markdown extract_text structured_json
with_documents d w =
    let linked = record w { hrefs = hrefs_of d } in
    record linked {
      title = extract_title d;
      markdown = html_to_markdown d;
      text = extract_text d;
      structured_json = λ html base. structured_json d (extract_links linked html base) html;
    }

region_text-ne-empty :
    (d : Documents) (html selector t : String)
    → region_text d html selector ≡ some t
    → is_empty t ≡ false
region_text-ne-empty d html selector t h = go (first_of d html selector) h
  where
    text : (s : String) → non_empty s ≡ some t → is_empty t ≡ false
    text s h = ground arith

    go :
        (o : Option Element)
        → (let r : Option String = elim o [ none ↦ none | some e ↦ non_empty (normal_text e) ] in r)
          ≡ some t
        → is_empty t ≡ false
    go none h = cc
    go (some e) h = text (normal_text e) h

-- The regions that are preferred to the body.
abbrev pub main_regions : List String
main_regions = "article" ∷ "main" ∷ "[role='main']" ∷ []

-- Preferring the main content never loses the text: where no article, main or main-role region has
-- text, the answer is the body's, and where one has, the answer is not empty.
extract_text_lem :
    (d : Documents) (html : String)
    → (All (λ s. region_text d html s ≡ none) main_regions
        × (extract_text d html true ≡ extract_text d html false))
      ⊎ (is_empty (extract_text d html true) ≡ false)
unfolding extract_text
extract_text_lem d html = go main_regions
  where
    go :
        (cs : List String)
        → (All (λ s. region_text d html s ≡ none) cs
            × (first_text d html (list_append cs ("body" ∷ [])) ≡ first_text d html ("body" ∷ [])))
          ⊎ (is_empty (first_text d html (list_append cs ("body" ∷ []))) ≡ false)
    go [] = inl (tt, refl)
    go (c ∷ cs) = elim (Option-cases (region_text d html c)) [
      | inl e ↦ elim (go cs) [
        | inl r ↦ inl ((e, r.0), rw (first_text, e) r.1)
        | inr r ↦ inr (rw (first_text, e) r)
      ]
      | inr (t, e) ↦ inr (rw (first_text, e) (region_text-ne-empty d html c t e))
    ]
