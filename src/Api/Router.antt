-- ===== src/Api/Router.antt =====
-- `router` of src/api.rs: which handler answers which method and path.
use fire_ctrl.Prelude.{String, ◌≡◌, refl, Bool, true, false, not, ◌&&◌, List, [], ◌∷◌, any, str_eq}

pub data Method : Type 0 where
  get post delete : Method

pub data Endpoint : Type 0 where
  health_handler scrape_handler crawl_handler crawl_status_handler crawl_cancel_handler : Endpoint
  crawl_errors_handler crawl_ongoing_handler batch_scrape_handler batch_status_handler : Endpoint
  batch_cancel_handler map_handler extract_handler extract_status_handler : Endpoint
  search_handler : Endpoint

abbrev router : List (Method × String × Endpoint)
router =
    (Method.get, "/health", Endpoint.health_handler)
    ∷ (Method.post, "/v2/scrape", Endpoint.scrape_handler)
    ∷ (Method.post, "/v2/crawl", Endpoint.crawl_handler)
    ∷ (Method.get, "/v2/crawl/{id}", Endpoint.crawl_status_handler)
    ∷ (Method.delete, "/v2/crawl/{id}", Endpoint.crawl_cancel_handler)
    ∷ (Method.get, "/v2/crawl/{id}/errors", Endpoint.crawl_errors_handler)
    ∷ (Method.get, "/v2/crawl/ongoing", Endpoint.crawl_ongoing_handler)
    ∷ (Method.post, "/v2/batch/scrape", Endpoint.batch_scrape_handler)
    ∷ (Method.get, "/v2/batch/scrape/{id}", Endpoint.batch_status_handler)
    ∷ (Method.delete, "/v2/batch/scrape/{id}", Endpoint.batch_cancel_handler)
    ∷ (Method.post, "/v2/map", Endpoint.map_handler)
    ∷ (Method.post, "/v2/extract", Endpoint.extract_handler)
    ∷ (Method.get, "/v2/extract/{id}", Endpoint.extract_status_handler)
    ∷ (Method.post, "/v2/search", Endpoint.search_handler)
    ∷ []

abbrev same_method : Method → Method → Bool
same_method Method.get Method.get = true
same_method Method.post Method.post = true
same_method Method.delete Method.delete = true
same_method _ _ = false

abbrev has_no_clash : List (Method × String × Endpoint) → Bool
has_no_clash [] = true
has_no_clash (r ∷ rs) = not (any (λ q. same_method r.0 q.0 && str_eq r.1 q.1) rs) && has_no_clash rs

-- No method of a path is given twice, which the router's library refuses.
router-has_no_clash : has_no_clash router ≡ true
router-has_no_clash = refl
