-- ===== src/Llm/Examples.antt =====
-- The extraction client and the ranking on concrete texts.
use fire_ctrl.Prelude.{ℕ, zero, suc, String, ◌≡◌, refl, none, List, [], ◌∷◌, map, false}
use fire_ctrl.Prelude.Text.{trim}
use fire_ctrl.Llm.Unwrap.{Extracted, opens, fenced, extract_json, extract_json-object}
use fire_ctrl.Llm.Retry.{ExtractionRequest, Reply, Ends, attempts, attempts-Ends}
use fire_ctrl.Llm.Rank.{
  Scored, rank_by_relevance, IsRanked, of_score, scored, rank_by_relevance-stable,
}

no_bracket : opens (trim "Sure: {\"a\": 1}!") ≡ false
unfolding trim
no_bracket = refl

no_json_fence : fenced "```json" (trim "Sure: {\"a\": 1}!") ≡ none
unfolding fenced trim
no_json_fence = refl

no_fence : fenced "```" (trim "Sure: {\"a\": 1}!") ≡ none
unfolding fenced trim
no_fence = refl

trimmed : trim "Sure: {\"a\": 1}!" ≡ "Sure: {\"a\": 1}!"
unfolding trim
trimmed = refl

extract_json-object_example : extract_json "Sure: {\"a\": 1}!" ≡ Extracted.found "{\"a\": 1}"
extract_json-object_example =
    extract_json-object "Sure: {\"a\": 1}!" "Sure: " "\"a\": 1" "!" trimmed
      (refl, (refl, (refl, (refl, (refl, (refl, tt)))))) (refl, tt) no_bracket no_json_fence
      no_fence

abbrev a_request : ExtractionRequest
a_request = record { content = "text"; prompt = "names"; schema = none; system_prompt = none }

-- The first attempt times out, the second one completes.
abbrev second_answers : ℕ → String → Reply
second_answers zero m = Reply.timed_out
second_answers (suc k) m = Reply.completed (record { text = "{}"; tokens = none; warning = none })

attempts-Ends_example :
    Ends second_answers a_request 3 0 (attempts second_answers a_request 3 0 "failed")
attempts-Ends_example = attempts-Ends second_answers a_request 3 0 "failed"

abbrev same_text : String → String
same_text s = s

abbrev one_word : String → List String
one_word s = s ∷ []

rank_by_relevance-stable_example :
    (ranked : List Scored) × (rank_by_relevance same_text one_word ("b" ∷ "ab" ∷ "a" ∷ []) "a"
      ≡ map (λ s. s.1) ranked)
    × IsRanked ranked
    × ((k : ℕ)
        → of_score k ranked
          ≡ of_score k (map (scored same_text one_word "a") ("b" ∷ "ab" ∷ "a" ∷ [])))
rank_by_relevance-stable_example =
    rank_by_relevance-stable same_text one_word ("b" ∷ "ab" ∷ "a" ∷ []) "a"
