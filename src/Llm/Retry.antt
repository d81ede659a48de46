-- ===== src/Llm/Retry.antt =====
-- `LlmClient::extract` of src/llm.rs: the attempts, and how much of the content each one sends.
use Prim.Native.String.{◌++◌}
use fire_ctrl.Prelude.{
  ℕ, zero, suc, ◌+◌, ◌/◌, ◌^◌, ◌≤◌, ◌<◌, max, String, ◌≡◌, ◌⊎◌, refl, Option, List, [], ◌∷◌,
  ◌++◌ as list_append, arith, length, ltb, Result, ok, err, ◌>>=◌, inl, inr, if◌then◌else◌,
}
use fire_ctrl.Prelude.Text.{trim, is_empty, take_chars, char_count, char_count-take_chars-le}
use fire_ctrl.Models.{Json}

pub record ExtractionRequest : Type 0 where
  pub content : String
  pub prompt : String
  pub schema : Option Json
  pub system_prompt : Option String

pub record LlmCompletion : Type 0 where
  pub text : String
  pub tokens : Option ℕ
  pub warning : Option String

-- The answer to `chat_complete` under the timeout.
pub data Reply : Type 0 where
  completed : LlmCompletion → Reply
  failed : String → Reply
  timed_out : Reply

-- What the model is asked: the request's own prompt, or a default for a blank one.
abbrev extraction_prompt : String → String
extraction_prompt prompt =
    if is_empty (trim prompt)
    then "Extract data that matches the schema. If the source is very long, return a representative subset that still matches the schema exactly."
    else prompt

-- How many characters a later attempt may send.
abbrev pub max_chars : ℕ → ℕ
max_chars attempt = max (24000 / (attempt + 1)) 6000

pub content_of : String → ℕ → String
unfolding take_chars
content_of content zero = content
content_of content (suc k) = take_chars (max_chars (suc k)) content

pub user_message : ExtractionRequest → ℕ → String
unfolding content_of
user_message req attempt =
    "Content:\n"
    ++ (content_of req.content attempt
        ++ ("\n\nExtraction Request:\n" ++ extraction_prompt req.prompt))

-- The seconds slept after an attempt that is not the last.
abbrev pause : ℕ → ℕ → List ℕ
pause attempt left = if ltb 0 left then (2 ^ attempt) ∷ [] else []

-- What the loop did: the messages that were sent, the pauses, and the completion or the last error.
pub record Attempts : Type 0 where
  pub sent : List String
  pub slept : List ℕ
  pub answer : Result String LlmCompletion

abbrev after_pause : String → List ℕ → Attempts → Attempts
after_pause m p r = record { sent = m ∷ r.sent; slept = list_append p r.slept; answer = r.answer }

abbrev answered : String → LlmCompletion → Attempts
answered m c = record { sent = m ∷ []; slept = []; answer = ok c }

-- `left` attempts remain; `chat` is what the endpoint answers to each attempt's message, under the
-- system prompt of the request, which all attempts share.
pub attempts : (ℕ → String → Reply) → ExtractionRequest → ℕ → ℕ → String → Attempts
attempts chat req zero attempt last_err = record { sent = []; slept = []; answer = err last_err }
attempts chat req (suc left) attempt last_err = elim (chat attempt (user_message req attempt)) [
  | completed c ↦ answered (user_message req attempt) c
  | failed e ↦
      after_pause (user_message req attempt) (pause attempt left)
        (attempts chat req left (suc attempt) ("LLM request failed: " ++ e))
  | timed_out ↦
      after_pause (user_message req attempt) (pause attempt left)
        (attempts chat req left (suc attempt) "LLM request timed out")
]

-- The completion's JSON: `extract_json` and the parser are given, and do not panic here. An error of
-- theirs is not retried.
pub extract :
    (String → Result String Json)
    → (ℕ → String → Reply)
    → ℕ
    → ExtractionRequest
    → Result String (Json × Option String)
unfolding attempts user_message
extract parse chat max_retries req = do
  c ← (attempts chat req max_retries 0 "LLM extraction failed").answer
  value ← parse c.text
  ok (value, c.warning)

-- Whether an attempt's answer is no completion.
abbrev pub Fails : Reply → Type 0
Fails (completed c) = ⊥
Fails _ = Unit

-- How the loop ends: the first completion among the attempts, all earlier ones having failed, or a
-- failure of every attempt.
pub data Ends (chat : ℕ → String → Reply) (req : ExtractionRequest)
    : ℕ → ℕ → Attempts → Type 0 where
  exhausted :
      (attempt : ℕ) (a : Attempts) (e : String)
      → a.answer ≡ err e
      → a.sent ≡ []
      → Ends chat req 0 attempt a
  now :
      (left attempt : ℕ) (a : Attempts) (c : LlmCompletion)
      → chat attempt (user_message req attempt) ≡ completed c
      → a.answer ≡ ok c
      → length a.sent ≡ 1
      → Ends chat req (suc left) attempt a
  later :
      (left attempt : ℕ) (a b : Attempts)
      → Fails (chat attempt (user_message req attempt))
      → a.answer ≡ b.answer
      → length a.sent ≡ suc (length b.sent)
      → Ends chat req left (suc attempt) b
      → Ends chat req (suc left) attempt a

reply_cases :
    (r : Reply)
    → ((c : LlmCompletion) × (r ≡ completed c))
      ⊎ (Fails r × (((e : String) × (r ≡ failed e)) ⊎ (r ≡ timed_out)))
reply_cases (completed c) = inl (c, refl)
reply_cases (failed e) = inr (tt, inl (e, refl))
reply_cases timed_out = inr (tt, inr refl)

-- The loop answers with the first completion that the endpoint gives within the allowed attempts,
-- each earlier attempt having failed or timed out, or with an error if none of them completes; it
-- sends one message for each attempt that it makes.
pub attempts-Ends :
    (chat : ℕ → String → Reply) (req : ExtractionRequest) (left attempt : ℕ) (last_err : String)
    → Ends chat req left attempt (attempts chat req left attempt last_err)
unfolding attempts
attempts-Ends chat req zero attempt last_err = exhausted attempt _ last_err refl refl
attempts-Ends chat req (suc left) attempt last_err =
    elim (reply_cases (chat attempt (user_message req attempt))) [
      | inl (c, e) ↦
          rw (e, attempts) (now left attempt (answered (user_message req attempt) c) c e refl refl)
      | inr (f, inl (x, e)) ↦
          rw (e, attempts)
            (later left attempt _
              (attempts chat req left (suc attempt) ("LLM request failed: " ++ x)) f refl refl
              (attempts-Ends chat req left (suc attempt) ("LLM request failed: " ++ x)))
      | inr (f, inr e) ↦
          rw (e, attempts)
            (later left attempt _ (attempts chat req left (suc attempt) "LLM request timed out") f
              refl refl (attempts-Ends chat req left (suc attempt) "LLM request timed out"))
    ]

-- Every attempt but the first, the k-th counted from 0, sends at most max (24000 / (k + 1), 6000)
-- characters of the content, which is never more than 12000.
content_of-bounded :
    (content : String) (attempt : ℕ)
    → 0 < attempt
    → (char_count (content_of content attempt) ≤ max_chars attempt) × (max_chars attempt ≤ 12000)
unfolding content_of
content_of-bounded content zero h = absurd (omega arith)
content_of-bounded content (suc k) h =
    (char_count-take_chars-le (max_chars (suc k)) content, bounded k)
  where
    bounded : (k : ℕ) → max_chars (suc k) ≤ 12000
    bounded k = grind arith
