-- ===== src/Scraper/Browsers/Fetch.antt =====
-- `BrowserPool::fetch_page` of src/scraper.rs: what one call does with the browser that it claims.
mod Examples
use Prim.Native.String.{◌++◌}
use fire_ctrl.Prelude.{
  ℕ, ◌*◌, arith, String, ◌≡◌, refl, Bool, true, false, Option, none, some, List, [], ◌∷◌,
  ◌++◌ as list_append, last, tally, ltb, Result, ok, err, if◌then◌else◌,
}
use fire_ctrl.Models.{AppError}

-- What the call does, in its order.
pub data Deed : Type 0 where
  opens_page : ℕ → String → Deed
  waits_for_navigation : Deed
  sleeps : ℕ → Deed
  reads_content : Deed
  reads_title : Deed
  closes_page : Deed
  fails_to_close : Deed
  drops_guard : ℕ → Deed

-- What a browser answers; no answer where the timeout ends the wait.
pub record Chrome : Type 0 where
  pub new_page : ℕ → String → ℕ → Option (Result String (Unit {0}))
  pub content : ℕ → String → ℕ → Option (Result String String)
  pub get_title : ℕ → String → Result String (Option String)
  pub close : ℕ → String → Result String (Unit {0})

abbrev pub timed : {A : Type 0} → String → Option (Result String A) → Result AppError A
timed what none = err AppError.timeout
timed what (some (err e)) = err (AppError.scraper (what ++ e))
timed what (some (ok a)) = ok a

abbrev pub flattened : Result String (Option String) → Option String
flattened (ok t) = t
flattened (err e) = none

abbrev pub pause : ℕ → List Deed
pause wait_for_ms = if ltb 0 wait_for_ms then Deed.sleeps wait_for_ms ∷ [] else []

-- `page.close()`, whose error is only logged.
abbrev pub closing : Result String (Unit {0}) → Deed
closing (ok u) = Deed.closes_page
closing (err e) = Deed.fails_to_close

-- From the content on, with the answers about the title and the closing. The guard is dropped where
-- the function returns.
abbrev pub finished :
    ℕ
    → Result AppError String
    → Result String (Unit {0})
    → Option String
    → Result AppError (String × Option String) × List Deed
finished b (err e) close title = (err e, Deed.reads_content ∷ Deed.drops_guard b ∷ [])
finished b (ok html) close title = (
  ok (html, title),
  Deed.reads_content ∷ Deed.reads_title ∷ closing close ∷ Deed.drops_guard b ∷ [],
)

abbrev pub after_open :
    Chrome
    → ℕ
    → String
    → ℕ
    → ℕ
    → Result AppError (Unit {0})
    → Result AppError (String × Option String) × List Deed
after_open c b url wait_for_ms timeout (err e) = (err e, Deed.drops_guard b ∷ [])
after_open c b url wait_for_ms timeout (ok u) =
    let (r, log) =
      finished b (timed "Failed to get content: " (c.content b url timeout)) (c.close b url)
        (flattened (c.get_title b url)) in
    (r, Deed.opens_page b url ∷ Deed.waits_for_navigation ∷ list_append (pause wait_for_ms) log)

-- `claimed` is the outcome of `acquire`.
unfoldable pub fetch_page :
    Chrome
    → Result AppError ℕ
    → String
    → ℕ
    → ℕ
    → Result AppError (String × Option String) × List Deed
fetch_page c (err e) url wait_for_ms timeout = (err e, [])
fetch_page c (ok b) url wait_for_ms timeout =
    after_open c b url wait_for_ms timeout
      (timed "Failed to open page: " (c.new_page b url timeout))

abbrev pub is_drop : Deed → Bool
is_drop (Deed.drops_guard b) = true
is_drop _ = false

abbrev pub is_open : Deed → Bool
is_open (Deed.opens_page b url) = true
is_open _ = false

abbrev pub is_close : Deed → Bool
is_close Deed.closes_page = true
is_close _ = false

abbrev pub asks_to_close : Deed → Bool
asks_to_close Deed.closes_page = true
asks_to_close Deed.fails_to_close = true
asks_to_close _ = false

abbrev pub one_if : {E A : Type 0} → Result E A → ℕ
one_if (ok a) = 1
one_if (err e) = 0

-- What a call leaves behind: the claimed browser is given back once, after all else; the page is
-- asked to close only on success, and closed if `answer`, the browser's, is no error.
pub record IsTidy (b opened : ℕ) (answer : Result String (Unit {0}))
    (r : Result AppError (String × Option String)) (log : List Deed) : Type 0 where
  pub at_last : last log ≡ some (Deed.drops_guard b)
  pub once : tally is_drop log ≡ 1
  pub pages : tally is_open log ≡ opened
  pub asked : tally asks_to_close log ≡ one_if r
  pub closed : tally is_close log ≡ one_if r * one_if answer

after_open-IsTidy :
    (c : Chrome) (b : ℕ) (url : String) (w t : ℕ) (r : Result AppError (Unit {0}))
    → IsTidy b (one_if r) (c.close b url) (after_open c b url w t r).0 (after_open c b url w t r).1
after_open-IsTidy c b url w t (err e) = record {
  at_last = refl;
  once = refl;
  pages = refl;
  asked = refl;
  closed = omega arith;
}
after_open-IsTidy c b url w t (ok u) =
    paused (ltb 0 w) (timed "Failed to get content: " (c.content b url t)) (c.close b url)
      (flattened (c.get_title b url))
  where
    paused :
        (long : Bool) (r : Result AppError String) (a : Result String (Unit {0}))
        (title : Option String)
        → IsTidy b 1 a (finished b r a title).0 (
            Deed.opens_page b url
            ∷ Deed.waits_for_navigation
            ∷ list_append (if long then Deed.sleeps w ∷ [] else []) (finished b r a title).1)
    paused true (ok html) (ok u) title = record {
      at_last = refl;
      once = refl;
      pages = refl;
      asked = refl;
      closed = omega arith;
    }
    paused true (ok html) (err e) title = record {
      at_last = refl;
      once = refl;
      pages = refl;
      asked = refl;
      closed = omega arith;
    }
    paused true (err e) a title = record {
      at_last = refl;
      once = refl;
      pages = refl;
      asked = refl;
      closed = omega arith;
    }
    paused false (ok html) (ok u) title = record {
      at_last = refl;
      once = refl;
      pages = refl;
      asked = refl;
      closed = omega arith;
    }
    paused false (ok html) (err e) title = record {
      at_last = refl;
      once = refl;
      pages = refl;
      asked = refl;
      closed = omega arith;
    }
    paused false (err e) a title = record {
      at_last = refl;
      once = refl;
      pages = refl;
      asked = refl;
      closed = omega arith;
    }

-- Whatever the browser answers, and whichever wait ends by its timeout: the claimed browser is given
-- back exactly once, after all else; the call has opened a page exactly if the browser answered in
-- time that it did; it has asked one to close exactly if it succeeds, and one is closed exactly if it
-- succeeds and the browser closes it. So a page whose content cannot be read, or that fails to close,
-- stays open in a browser that others claim later.
pub fetch_page-IsTidy :
    (c : Chrome) (b : ℕ) (url : String) (wait_for_ms timeout : ℕ)
    → IsTidy b
        (one_if (timed "Failed to open page: " (c.new_page b url timeout)))
        (c.close b url)
        (fetch_page c (ok b) url wait_for_ms timeout).0
        (fetch_page c (ok b) url wait_for_ms timeout).1
unfolding fetch_page
fetch_page-IsTidy c b url wait_for_ms timeout =
    after_open-IsTidy c b url wait_for_ms timeout
      (timed "Failed to open page: " (c.new_page b url timeout))
