-- ===== src/Models/Fault.antt =====
-- src/models.rs: `AppError`, its messages and its HTTP responses. An error of a library is carried
-- as the text that the library displays for it.
use Prim.Native.String.{◌++◌}
use fire_ctrl.Prelude.{ℕ, String, Bool, false}

pub data AppError : Type 0 where
  pool postgres redis scraper llm invalid_url not_found : String → AppError
  unauthorized : AppError
  serialization : String → AppError
  timeout : AppError
  resource_limit bad_request : String → AppError

unfoldable pub to_string : AppError → String
to_string (AppError.pool e) = "database pool error: " ++ e
to_string (AppError.postgres e) = "postgres error: " ++ e
to_string (AppError.redis e) = "redis error: " ++ e
to_string (AppError.scraper e) = "scraper error: " ++ e
to_string (AppError.llm e) = "LLM error: " ++ e
to_string (AppError.invalid_url e) = "invalid URL: " ++ e
to_string (AppError.not_found e) = "not found: " ++ e
to_string AppError.unauthorized = "unauthorized"
to_string (AppError.serialization e) = "serialization error: " ++ e
to_string AppError.timeout = "timeout"
to_string (AppError.resource_limit e) = "resource limit exceeded: " ++ e
to_string (AppError.bad_request e) = "bad request: " ++ e

pub record ErrorBody : Type 0 where
  pub success : Bool
  pub error : String

abbrev pub status_code : AppError → ℕ
status_code (AppError.not_found _) = 404
status_code AppError.unauthorized = 401
status_code (AppError.invalid_url _) = 400
status_code (AppError.serialization _) = 400
status_code (AppError.bad_request _) = 400
status_code AppError.timeout = 504
status_code (AppError.resource_limit _) = 503
status_code _ = 500

-- The status code and the JSON body.
unfoldable pub into_response : AppError → ℕ × ErrorBody
unfolding to_string
into_response e = (status_code e, record { success = false; error = to_string e })
