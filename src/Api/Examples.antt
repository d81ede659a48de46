-- ===== src/Api/Examples.antt =====
-- The gates and the status pages on concrete requests.
use mathlib.Core.List.{Memᴰ}
use fire_ctrl.Prelude.{
  ℕ, String, ◌≡◌, ◌↔◌, ◌⊎◌, refl, Bool, true, false, Option, none, some, [], ◌∷◌, ltb, ok, arith,
}
use fire_ctrl.Prelude.Int.{ℤ, pos}
use fire_ctrl.Models.{Json, JobStatus, GroupStatus, QueueScrapeRow, GroupCrawlRow, ScrapeResult}
use fire_ctrl.Queue.{GroupCounts}
use fire_ctrl.Api.Gate.{AuthConfig, bearer_key, check_auth, IsAccepted, check_auth_iff}
use fire_ctrl.Api.Snapshot.{Limits}
use fire_ctrl.Api.Status.{Codec, status_response}
use fire_ctrl.Api.Status.Paging.{next-none_of_undecoded}

abbrev with_keys : AuthConfig
with_keys = record {
  use_db_authentication = true;
  test_api_key = some "fc-test";
  bull_auth_key = "admin";
  allow_local_webhooks = false;
}

check_auth_iff_example : (check_auth (some "Bearer fc-test ") with_keys ≡ ok tt) ↔ (
    (with_keys.use_db_authentication ≡ false)
    ⊎ ((k : String) × (bearer_key (some "Bearer fc-test ") ≡ some k) × IsAccepted with_keys k))
check_auth_iff_example = check_auth_iff (some "Bearer fc-test ") with_keys

abbrev above_800 : ℕ → Bool
above_800 n = ltb 800 n

abbrev too_high : ℕ → String
too_high n = "too high"

abbrev limits : Limits
limits = record {
  above_cpu = above_800;
  above_ram = above_800;
  cpu_text = too_high;
  ram_text = too_high;
}

abbrev a_page : ScrapeResult
a_page = record {
  url = "https://a.example/";
  title = none;
  markdown = some "text";
  html = none;
  raw_html = none;
  screenshot = none;
  links = none;
  extract = none;
  json = none;
  warning = none;
  metadata = record {
    status_code = 200;
    content_type = none;
    source_url = "https://a.example/";
    scrape_id = none;
    error = none;
  };
}

-- Every stored value but null is a page.
abbrev decode_page : Json → Option ScrapeResult
decode_page Json.null = none
decode_page _ = some a_page

abbrev link_text : String → ℕ → QueueScrapeRow → ℤ → String
link_text route id r n = route

abbrev codec : Codec
codec = record { decode = decode_page; next_text = link_text }

abbrev row_of : ℕ → Option Json → QueueScrapeRow
row_of id v = record {
  id = id;
  status = JobStatus.completed;
  payload = none;
  created_at = id;
  returnvalue = v;
  failedreason = none;
  group_id = some 9;
}

abbrev group_nine : GroupCrawlRow
group_nine = record {
  id = 9;
  status = GroupStatus.active;
  created_at = 5;
  owner_id = 0;
  ttl = pos 86400000;
  expires_at = none;
}

abbrev three_done : GroupCounts
three_done = record { completed = 3; failed = 0; pending = 0; total = 3 }

next-none_of_undecoded_example :
    (status_response codec "/v2/crawl/" 9 group_nine three_done
      (pos 2)
      (row_of 1 (some (Json.string "page")) ∷ row_of 2 (some Json.null) ∷ [])).next
    ≡ none
next-none_of_undecoded_example =
    next-none_of_undecoded codec "/v2/crawl/" 9 group_nine three_done 2
      (row_of 1 (some (Json.string "page")) ∷ row_of 2 (some Json.null) ∷ [])
      (row_of 2 (some Json.null)) (omega arith) (Memᴰ.tail (Memᴰ.head refl)) refl
