-- ===== src/Llm/Unwrap.antt =====
-- `LlmClient::extract_json` of src/llm.rs: the JSON in a completion. Positions count characters.
use Prim.Native.Char.{code}
use Prim.Native.String.{String, [], ◌∷◌, ◌++◌}
use text.Mathlib.TextLemmas.{cons-append, nil-append, append_assoc}
use fire_ctrl.Prelude.{
  ℕ, ◌+◌, ◌≡◌, refl, ap, Bool, false, ◌||◌, Option, none, some, arith, leb, le→leb, ◌==◌,
  if◌then◌else◌,
}
use fire_ctrl.Prelude.Text.{trim, find, find_char, rfind_char, char_count, take_chars, drop_chars}

-- What a call gives: a text, the error of `bail!`, or the panic of a slice whose start lies past its
-- end.
pub data Extracted : Type 0 where
  found : String → Extracted
  bailed : Extracted
  panicked : Extracted

abbrev pub opens : String → Bool
opens [] = false
opens (c ∷ s) = code c == b'{' || code c == b'['

-- The text after the first occurrence, and the text before it.
abbrev after : String → String → Option String
after p s = elim (find p s) [ none ↦ none | some i ↦ some (drop_chars (i + char_count p) s) ]

abbrev before : String → String → Option String
before p s = elim (find p s) [ none ↦ none | some i ↦ some (take_chars i s) ]

-- The text between an opening fence and the next "```".
unfoldable pub fenced : String → String → Option String
unfolding find drop_chars take_chars char_count
fenced fence s = elim (after fence s) [ none ↦ none | some rest ↦ before "```" rest ]

-- `&s[i..=j]`.
slice_inclusive : ℕ → ℕ → String → Extracted
unfolding drop_chars take_chars
slice_inclusive i j s =
    if leb i (j + 1) then found (drop_chars i (take_chars (j + 1) s)) else panicked

abbrev between : Option ℕ → Option ℕ → String → Extracted → Extracted
between (some i) (some j) s other = slice_inclusive i j s
between _ _ s other = other

embedded : String → Extracted
unfolding slice_inclusive find_char rfind_char
embedded s =
    between (find_char b'{' s) (rfind_char b'}' s) s
      (between (find_char b'[' s) (rfind_char b']' s) s bailed)

pub extract_json : String → Extracted
extract_json content =
    let s = trim content in
    if opens s then found s else elim (fenced "```json" s) [
      | some inner ↦ found (trim inner)
      | none ↦ elim (fenced "```" s) [
        | none ↦ embedded s
        | some inner ↦ if opens (trim inner) then found (trim inner) else embedded s
      ]
    ]

extract_json_fenced : extract_json "```json\n{\"k\":1}\n```" ≡ found "{\"k\":1}"
unfolding extract_json trim fenced embedded
extract_json_fenced = refl

extract_json_prose : extract_json "Answer: {\"k\":1} done." ≡ found "{\"k\":1}"
unfolding extract_json trim fenced embedded
extract_json_prose = refl

extract_json_panics : extract_json "a } b { c" ≡ panicked
unfolding extract_json trim fenced embedded
extract_json_panics = refl

-- No `k` occurs in the text.
abbrev pub Lacks : ℕ → String → Type 0
Lacks k [] = Unit
Lacks k (c ∷ s) = ((code c == k) ≡ false) × Lacks k s

find_char-append :
    (k : ℕ) (pre : String) (rest : String) (i : ℕ)
    → Lacks k pre
    → find_char k rest ≡ some i
    → find_char k (pre ++ rest) ≡ some (char_count pre + i)
unfolding find_char char_count
find_char-append k [] rest i h e = rw (nil-append rest, e) (ap some (omega arith))
find_char-append k (c ∷ pre) rest i h e =
    rw (cons-append c pre rest)
      (rw h.0 (rw (find_char-append k pre rest i h.1 e) (ap some (omega arith))))

rfind_char-none : (k : ℕ) (s : String) → Lacks k s → rfind_char k s ≡ none
unfolding rfind_char
rfind_char-none k [] h = refl
rfind_char-none k (c ∷ s) h = rw (rfind_char-none k s h.1, rfind_char) (rw h.0)

rfind_char-append :
    (k : ℕ) (pre : String) (rest : String) (i : ℕ)
    → rfind_char k rest ≡ some i
    → rfind_char k (pre ++ rest) ≡ some (char_count pre + i)
unfolding rfind_char char_count
rfind_char-append k [] rest i e = rw (nil-append rest, e) (ap some (omega arith))
rfind_char-append k (c ∷ pre) rest i e =
    rw (cons-append c pre rest)
      (rw (rfind_char-append k pre rest i e, rfind_char) (ap some (omega arith)))

drop_chars-append : (s t : String) → drop_chars (char_count s) (s ++ t) ≡ t
unfolding drop_chars char_count
drop_chars-append [] t = nil-append t
drop_chars-append (c ∷ s) t = rw (cons-append c s t) (drop_chars-append s t)

take_chars-append : (s t : String) → take_chars (char_count s) (s ++ t) ≡ s
unfolding take_chars char_count
take_chars-append [] t = refl
take_chars-append (c ∷ s) t = rw (cons-append c s t) (ap (λ r. c ∷ r) (take_chars-append s t))

char_count-append : (s t : String) → char_count (s ++ t) ≡ char_count s + char_count t
unfolding char_count
char_count-append [] t = rw (nil-append t) (omega arith)
char_count-append (c ∷ s) t = rw (cons-append c s t) (omega (arith, char_count-append s t))

module _ (pre mid post : String) (no_open : Lacks b'{' pre) (no_close : Lacks b'}' post) where
  object : String
  object = ("{" ++ mid) ++ "}"

  first_brace : find_char b'{' (pre ++ (object ++ post)) ≡ some (char_count pre + 0)
  unfolding object find_char
  first_brace = find_char-append b'{' pre (object ++ post) 0 no_open (
      rw (
        cons-append _ "" mid,
        nil-append mid,
        cons-append _ mid "}",
        cons-append _ (mid ++ "}") post,
      ))

  last_brace :
      rfind_char b'}' (pre ++ (object ++ post))
      ≡ some (char_count pre + (char_count ("{" ++ mid) + 0))
  unfolding object
  last_brace = rfind_char-append b'}' pre (object ++ post) (char_count ("{" ++ mid) + 0) (
      rw (append_assoc ("{" ++ mid) "}" post) (
        rfind_char-append b'}' ("{" ++ mid) ("}" ++ post) 0 (
          rw (cons-append _ "" post, nil-append post)
            (unfold rfind_char in rw (rfind_char-none b'}' post no_close, rfind_char)))))

  sliced :
      (i j : ℕ)
      → i ≡ char_count pre
      → j + 1 ≡ char_count (pre ++ object)
      → slice_inclusive i j (pre ++ (object ++ post)) ≡ found object
  unfolding slice_inclusive
  sliced i j p q = rw (← append_assoc pre object post) (
      rw (p, q)
        (rw (take_chars-append (pre ++ object) post) (
          rw (drop_chars-append pre object) (
            rw (
              le→leb (char_count pre) (char_count (pre ++ object))
                (omega (arith, char_count-append pre object)))))))

  embedded-object : embedded (pre ++ (object ++ post)) ≡ found object
  unfolding embedded
  embedded-object =
      rw (first_brace, last_brace)
        (sliced (char_count pre + 0) (char_count pre + (char_count ("{" ++ mid) + 0)) (omega arith)
          (unfold object in
            omega (
              arith,
              char_count-append pre (("{" ++ mid) ++ "}"),
              char_count-append ("{" ++ mid) "}",
              one,
            )))
    where
      one : char_count "}" ≡ 1
      one = unfold char_count in refl

-- A completion that is prose, an object in braces and more prose, with no fence, with no `{` before
-- the object and no `}` after it, gives back exactly the object.
pub extract_json-object :
    (content pre mid post : String)
    → trim content ≡ pre ++ ((("{" ++ mid) ++ "}") ++ post)
    → Lacks b'{' pre
    → Lacks b'}' post
    → opens (trim content) ≡ false
    → fenced "```json" (trim content) ≡ none
    → fenced "```" (trim content) ≡ none
    → extract_json content ≡ found (("{" ++ mid) ++ "}")
unfolding extract_json object
extract_json-object content pre mid post e no_open no_close plain no_json no_fence =
    simp (plain, no_json, no_fence) (rw e (embedded-object pre mid post no_open no_close))
