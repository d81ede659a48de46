-- ===== src/Llm/Chat.antt =====
-- `raw_chat_complete` of src/llm.rs: one completion, in one or two HTTP requests; the system prompt
-- of an extraction, the health check, and `LlmConfig` of src/config.rs.
pub mod Frugal
mod Examples
use Prim.Native.Char.{code}
use Prim.Native.String.{[] as empty, ◌∷◌ as cons, ◌++◌}
use fire_ctrl.Prelude.{
  ℕ, ◌%◌, ◌^◌, ◌≤◌, String, ◌≡◌, ◌↔◌, refl, Bool, true, false, not, ◌&&◌, ◌||◌, ◌==◌, Option, none,
  some, List, [], ◌∷◌, length, arith, is_some, unwrap_or, Result, ok, err, ◌>>=◌, ok_or, >>=-eq-ok,
  ok-injective, ap, sym, subst, Bool-cases, inl, inr, if◌then◌else◌,
}
use fire_ctrl.Prelude.Text.{is_empty, contains}
use fire_ctrl.Models.{Json, Items, Fields, get, as_str}
use fire_ctrl.Llm.Retry.{ExtractionRequest, LlmCompletion, Reply, extract}

pub record LlmConfig : Type 0 where
  pub base_url : String
  pub api_key : String
  pub model_name : String
  pub embedding_model : Option String
  pub ollama_base_url : Option String
  pub timeout_seconds : ℕ
  pub max_retries : ℕ
  pub max_input_chars : ℕ

abbrev pub is_configured : LlmConfig → Bool
is_configured cfg = not (is_empty cfg.api_key) || is_some cfg.ollama_base_url

-- What a POST comes to: not sent, a status that is an error, a body that is no JSON, or the body.
pub data Posted : Type 0 where
  unsent rejected unreadable : String → Posted
  replied : Json → Posted

-- What the client takes from libraries: the endpoint, given the URL, the authorization and the body;
-- the check of a header's text, and the reading of a number.
pub record Http : Type 0 where
  pub post : String → Option String → Json → Posted
  pub header : String → Result String String
  pub as_u64 : Json → Option ℕ

-- `trim_end_matches('/')`.
unfoldable pub trim_slashes : String → String
trim_slashes empty = empty
trim_slashes (cons c s) =
    let rest = trim_slashes s in if is_empty rest && code c == b'/' then empty else cons c rest

-- The key is sent where it is not empty.
abbrev authorization : Http → LlmConfig → Result String (Option String)
authorization h cfg =
    if is_empty cfg.api_key
    then ok none
    else (do v ← h.header ("Bearer " ++ cfg.api_key); ok (some v))

abbrev message : String → String → Json
message role content = Json.object (
    Fields.field "role" (Json.string role)
      (Fields.field "content" (Json.string content) Fields.end))

abbrev messages : String → String → Fields
messages system user =
    Fields.field "messages"
      (Json.array
        (Items.cons (message "system" system) (Items.cons (message "user" user) Items.nil)))
      Fields.end

abbrev pub body_plain : LlmConfig → String → String → Json
body_plain cfg system user = Json.object (
    Fields.field "model" (Json.string cfg.model_name)
      (Fields.field "temperature" (Json.number "0.1") (messages system user)))

abbrev pub body_with_reasoning : LlmConfig → String → String → Json
body_with_reasoning cfg system user = Json.object (
    Fields.field "model" (Json.string cfg.model_name) (
      Fields.field "temperature" (Json.number "0.1")
        (Fields.field "reasoning_effort" (Json.string "none") (messages system user))))

abbrev then_get : String → Option Json → Option Json
then_get k none = none
then_get k (some v) = get k v

-- `get(0)`.
abbrev then_first : Option Json → Option Json
then_first (some (Json.array (Items.cons v vs))) = some v
then_first _ = none

abbrev then_text : Option Json → Option String
then_text none = none
then_text (some v) = as_str v

-- `as u32` of what is a number.
abbrev then_u32 : Http → Option Json → Option ℕ
then_u32 h none = none
then_u32 h (some v) = elim (h.as_u64 v) [ none ↦ none | some n ↦ some (n % 2 ^ 32) ]

pub completion_of : Http → Option String → Json → Result String LlmCompletion
completion_of h warning resp = do
  text ←
      ok_or "LLM returned empty response"
        (then_text (then_get "content" (then_get "message" (then_first (get "choices" resp)))))
  ok (record {
    text = text;
    tokens = then_u32 h (then_get "total_tokens" (get "usage" resp));
    warning = warning;
  })

abbrev pub retried : String
retried = "Provider rejected optional reasoning tuning parameter; request retried without it."

-- The bodies that were posted, and the completion or the error.
pub record Chat : Type 0 where
  pub posted : List Json
  pub answer : Result String LlmCompletion

-- A request whose every failure is the call's.
abbrev pub plain_answer : Http → Option String → Posted → Result String LlmCompletion
plain_answer h warning (Posted.unsent e) = err e
plain_answer h warning (Posted.rejected e) = err e
plain_answer h warning (Posted.unreadable e) = err e
plain_answer h warning (Posted.replied v) = completion_of h warning v

abbrev ask_plain : Http → String → Option String → Json → List Json → Option String → Chat
ask_plain h url auth body before warning = record {
  posted = before;
  answer = plain_answer h warning (h.post url auth body);
}

-- What follows the request with the reasoning parameter.
abbrev pub after_first : Http → String → Option String → Json → Json → Posted → Chat
after_first h url auth reasoning plain (Posted.replied v) = record {
  posted = reasoning ∷ [];
  answer = completion_of h none v;
}
after_first h url auth reasoning plain (Posted.unreadable e) = record {
  posted = reasoning ∷ [];
  answer = err e;
}
after_first h url auth reasoning plain _ =
    ask_plain h url auth plain (reasoning ∷ plain ∷ []) (some retried)

pub chat_with : Http → LlmConfig → String → String → Option String → Chat
unfolding completion_of trim_slashes contains
chat_with h cfg system user auth =
    let url = trim_slashes cfg.base_url ++ "/chat/completions" in
    let plain = body_plain cfg system user in
    let reasoning = body_with_reasoning cfg system user in
    elim (contains "api.groq.com" cfg.base_url) [
      | true ↦ ask_plain h url auth plain (plain ∷ []) none
      | false ↦ after_first h url auth reasoning plain (h.post url auth reasoning)
    ]

abbrev with_headers : Http → LlmConfig → String → String → Result String (Option String) → Chat
with_headers h cfg system user (err e) = record { posted = []; answer = err e }
with_headers h cfg system user (ok auth) = chat_with h cfg system user auth

pub raw_chat_complete : Http → LlmConfig → String → String → Chat
unfolding chat_with
raw_chat_complete h cfg system user = with_headers h cfg system user (authorization h cfg)

-- `pretty` is `to_string_pretty(schema).unwrap_or_default()`.
pub system_prompt : (Json → String) → ExtractionRequest → String
system_prompt pretty req =
    unwrap_or
      (elim req.schema [
        | some schema ↦
            "You are a data extraction assistant. Extract information from the provided content according to this JSON schema:\n"
            ++ (pretty schema
                ++ "\n\nReturn ONLY valid JSON that matches the schema, with no markdown fences or prose.")
        | none ↦
            "You are a data extraction assistant. Extract the requested information from the provided content and return it as valid JSON only, with no markdown fences or additional prose."
      ])
      req.system_prompt

abbrev ping_request : ExtractionRequest
ping_request = record {
  content = "ping";
  prompt = "Return {\"status\":\"ok\"}";
  schema = none;
  system_prompt = none;
}

pub health_check :
    (String → Result String Json) → (ℕ → String → Reply) → ℕ → Result String (Unit {0})
health_check parse chat max_retries = do result ← extract parse chat max_retries ping_request; ok tt
