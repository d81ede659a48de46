-- ===== src/Llm/Chat/Examples.antt =====
-- An endpoint that refuses the reasoning parameter.
use fire_ctrl.Prelude.{◌≡◌, refl, none, some, length, ok}
use fire_ctrl.Models.{Json, Items, Fields, get, as_str}
use fire_ctrl.Llm.Chat.{LlmConfig, Posted, Http, raw_chat_complete}
use fire_ctrl.Llm.Chat.Frugal.{IsFrugal, raw_chat_complete-IsFrugal}

abbrev local_model : LlmConfig
local_model = record {
  base_url = "http://localhost:11434/v1/";
  api_key = "";
  model_name = "llama3";
  embedding_model = none;
  ollama_base_url = none;
  timeout_seconds = 10;
  max_retries = 1;
  max_input_chars = 24000;
}

abbrev reply : Json
reply = Json.object (
    Fields.field "choices"
      (Json.array (
        Items.cons
          (Json.object (
            Fields.field "message"
              (Json.object (Fields.field "content" (Json.string "{}") Fields.end)) Fields.end))
          Items.nil))
      Fields.end)

abbrev strict : Json → Posted
strict body = elim (get "reasoning_effort" body) [
  | none ↦ Posted.replied reply
  | some v ↦ Posted.rejected "400 Bad Request"
]

abbrev strict_http : Http
strict_http = record { post = λ url auth body. strict body; header = λ s. ok s; as_u64 = λ v. none }

two_requests_needed :
    (length (raw_chat_complete strict_http local_model "s" "u").posted ≡ 2)
    × ((raw_chat_complete strict_http local_model "s" "u").answer
        ≡ ok (record {
          text = "{}";
          tokens = none;
          warning =
              some
                "Provider rejected optional reasoning tuning parameter; request retried without it.";
        }))
unfolding raw_chat_complete get as_str
two_requests_needed = (refl, refl)

raw_chat_complete-IsFrugal_example : IsFrugal (raw_chat_complete strict_http local_model "s" "u")
raw_chat_complete-IsFrugal_example = raw_chat_complete-IsFrugal strict_http local_model "s" "u"
