-- ===== src/Scraper/Robots.antt =====
-- `HttpScraper::fetch` and `is_allowed_by_robots` of src/scraper.rs, with the cache of the texts.
mod Examples
use Prim.Native.String.{◌++◌}
use fire_ctrl.Prelude.{
  ℕ, ◌≤◌, ◌<◌, String, ◌≡◌, ◌∙◌, refl, ap, Bool, true, false, not, ◌&&◌, ◌⊎◌, Option, none, some,
  List, [], ◌∷◌, arith, length, first, leb, unwrap_or, str_eq, str_eq_iff, Result, ok, err, ◌>>=◌,
  is_some, Bool-cases, inl, inr, if◌then◌else◌,
}
use fire_ctrl.Prelude.Text.{trim}
use fire_ctrl.Prelude.Lines.{split_char}

-- What the client gives of a response: the status, the content type's header if it is text, and the
-- body.
pub record Response : Type 0 where
  pub status : ℕ
  pub content_type : Option String
  pub body : Result String String

-- The media type before the first `;`.
pub media_type : Option String → Option String
unfolding split_char trim
media_type none = none
media_type (some s) = some (trim (unwrap_or s (first (split_char b';' s))))

-- The errors stand by what the library displays.
pub fetch : (String → Result String Response) → String → Result String (ℕ × Option String × String)
unfolding media_type
fetch get url = do
  resp ← get url
  body ← resp.body
  ok (resp.status, media_type resp.content_type, body)

-- The cache from hosts to texts.
abbrev pub Cache : Type 0
Cache = List (String × String)

unfoldable pub cached : String → Cache → Option String
cached host [] = none
cached host (e ∷ es) = if str_eq e.0 host then some e.1 else cached host es

unfoldable pub remove : String → Cache → Cache
remove host [] = []
remove host (e ∷ es) = let rest = remove host es in if str_eq e.0 host then rest else e ∷ rest

unfoldable pub insert : String → String → Cache → Cache
unfolding remove
insert host text cache = (host, text) ∷ remove host cache

abbrev evicted : Option String → Cache → Cache
evicted none cache = cache
evicted (some key) cache = remove key cache

-- `pick` is `keys().next()`: some key of the map, in an order that the map does not promise.
unfoldable pub store : (Cache → Option String) → String → String → Cache → Cache
unfolding remove insert
store pick host text cache =
    insert host text (if leb 1000 (length cache) then evicted (pick cache) cache else cache)

pub record Target : Type 0 where
  pub scheme : String
  pub host : Option String
  pub text : String

-- `r.status().is_success()`, and the body or else nothing.
abbrev pub robots_text : Result String Response → Option String
robots_text (err e) = none
robots_text (ok r) =
    if leb 200 r.status && leb r.status 299
    then (elim r.body [ ok t ↦ some t | err e ↦ some "" ])
    else none

-- `matcher` is `one_agent_allowed_by_robots`; `meanwhile` is what other tasks do to the cache while
-- this one fetches. The answer, and the cache after it.
unfoldable pub is_allowed_by_robots :
    (String → Result String Response)
    → (String → String → String → Bool)
    → (Cache → Option String)
    → (Cache → Cache)
    → Bool
    → String
    → Target
    → Cache
    → Bool × Cache
unfolding cached store
is_allowed_by_robots get matcher pick meanwhile respect user_agent url cache =
    let host = unwrap_or "" url.host in
    elim respect [
      | false ↦ (true, cache)
      | true ↦ elim (cached host cache) [
        | some text ↦ (matcher text user_agent url.text, cache)
        | none ↦ elim (robots_text (get (url.scheme ++ ("://" ++ (host ++ "/robots.txt"))))) [
          | none ↦ (true, meanwhile cache)
          | some text ↦ (matcher text user_agent url.text, store pick host text (meanwhile cache))
        ]
      ]
    ]

length-remove-le : (host : String) (cache : Cache) → length (remove host cache) ≤ length cache
unfolding remove
length-remove-le host [] = omega arith
length-remove-le host (e ∷ es) = ground (arith, length-remove-le host es)

-- Removing a key that is there makes room.
length-remove-lt :
    (host : String) (cache : Cache)
    → is_some (cached host cache) ≡ true
    → length (remove host cache) < length cache
unfolding cached remove
length-remove-lt host [] h = cc
length-remove-lt host (e ∷ es) h =
    ground (arith, length-remove-le host es, length-remove-lt host es)

-- A key of the map, if there is any.
abbrev pub PicksKey : (Cache → Option String) → Type 0
PicksKey pick =
    (cache : Cache)
    → 0 < length cache
    → (key : String) × (pick cache ≡ some key) × (is_some (cached key cache) ≡ true)

store-bounded :
    (pick : Cache → Option String) (host text : String) (cache : Cache)
    → PicksKey pick
    → length cache ≤ 1000
    → length (store pick host text cache) ≤ 1000
unfolding store insert
store-bounded pick host text cache picks few = elim (Bool-cases (leb 1000 (length cache))) [
  | inl e ↦
      let (key, p, k) = picks cache (ground arith) in
      rw (e, p)
        (omega (arith, length-remove-le host (remove key cache), length-remove-lt key cache k))
  | inr e ↦ rw e (ground (arith, length-remove-le host cache))
]

cached-store :
    (pick : Cache → Option String) (host text : String) (cache : Cache)
    → cached host (store pick host text cache) ≡ some text
unfolding cached store insert
cached-store pick host text cache = rw ((str_eq_iff host host).1 refl) refl

module _ (get : String → Result String Response) (matcher : String → String → String → Bool)
    (pick : Cache → Option String) (meanwhile : Cache → Cache) (user_agent : String) (url : Target)
    (cache : Cache) (text : String) where
  asks :
      cached (unwrap_or "" url.host) cache ≡ none
      → robots_text (get (url.scheme ++ ("://" ++ (unwrap_or "" url.host ++ "/robots.txt"))))
        ≡ some text
      → is_allowed_by_robots get matcher pick meanwhile true user_agent url cache ≡ (
        matcher text user_agent url.text,
        store pick (unwrap_or "" url.host) text (meanwhile cache),
      )
  unfolding is_allowed_by_robots
  asks missing got = rw (is_allowed_by_robots, missing, got) refl

  knows :
      cached (unwrap_or "" url.host) cache ≡ some text
      → is_allowed_by_robots get matcher pick meanwhile true user_agent url cache
        ≡ (matcher text user_agent url.text, cache)
  unfolding is_allowed_by_robots
  knows here = rw (is_allowed_by_robots, here) refl

-- After a call that asked for rules and got some, while other tasks kept the cache to at most 1000
-- hosts: the cache still holds at most 1000 hosts, and the next call for a URL of that host is answered
-- by the same rules, without a request, and leaves the cache as it is.
pub is_allowed_by_robots-cached :
    (get get' : String → Result String Response) (matcher : String → String → String → Bool)
    (pick : Cache → Option String) (meanwhile meanwhile' : Cache → Cache) (user_agent : String)
    (url url' : Target) (cache : Cache) (text : String)
    → PicksKey pick
    → length (meanwhile cache) ≤ 1000
    → unwrap_or "" url'.host ≡ unwrap_or "" url.host
    → cached (unwrap_or "" url.host) cache ≡ none
    → robots_text (get (url.scheme ++ ("://" ++ (unwrap_or "" url.host ++ "/robots.txt"))))
      ≡ some text
    → (length (is_allowed_by_robots get matcher pick meanwhile true user_agent url cache).1 ≤ 1000)
      × (is_allowed_by_robots get' matcher pick meanwhile' true user_agent url'
            (is_allowed_by_robots get matcher pick meanwhile true user_agent url cache).1
          ≡ (
            matcher text user_agent url'.text,
            (is_allowed_by_robots get matcher pick meanwhile true user_agent url cache).1,
          ))
is_allowed_by_robots-cached get get' matcher pick meanwhile meanwhile' user_agent url url' cache
      text picks few same missing got =
    let host = unwrap_or "" url.host in
    let later = store pick host text (meanwhile cache) in
    rw (asks get matcher pick meanwhile user_agent url cache text missing got) (
      store-bounded pick host text (meanwhile cache) picks few,
      knows get' matcher pick meanwhile' user_agent url' later text
          (ap (λ h. cached h later) same ∙ cached-store pick host text (meanwhile cache)),
    )
