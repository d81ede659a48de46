-- ===== src/Llm/Chat/Frugal.antt =====
-- How many requests one completion takes, and when it carries the warning.
use Prim.Native.String.{◌++◌}
use fire_ctrl.Prelude.{
  ℕ, ◌≤◌, String, ◌≡◌, ◌↔◌, refl, true, Option, none, some, length, arith, is_some, Result, ok, err,
  ok_or, >>=-eq-ok, ok-injective, ap, sym, subst, Bool-cases, inl, inr,
}
use fire_ctrl.Prelude.Text.{contains}
use fire_ctrl.Models.{Json, get}
use fire_ctrl.Llm.Retry.{LlmCompletion}
use fire_ctrl.Llm.Chat.{
  LlmConfig, Posted, Http, trim_slashes, authorization, body_plain, body_with_reasoning, then_get,
  then_first, then_text, completion_of, Chat, retried, plain_answer, after_first, chat_with,
  with_headers, raw_chat_complete,
}

-- What the requests of a call come to: at most two, and the warning exactly with the second.
abbrev pub IsFrugal : Chat → Type 0
IsFrugal r =
    (length r.posted ≤ 2)
    × ((c : LlmCompletion) → r.answer ≡ ok c → (is_some c.warning ≡ true) ↔ (length r.posted ≡ 2))

completion_of-warning :
    (h : Http) (warning : Option String) (v : Json) (c : LlmCompletion)
    → completion_of h warning v ≡ ok c
    → warning ≡ c.warning
unfolding completion_of
completion_of-warning h warning v c e =
    let (text, _, e1) =
      >>=-eq-ok
        (ok_or "LLM returned empty response"
          (then_text (then_get "content" (then_get "message" (then_first (get "choices" v))))))
        _ e in
    ap (λ (x : LlmCompletion). x.warning) (ok-injective {E = String} _ _ e1)

plain_answer-warning :
    (h : Http) (warning : Option String) (p : Posted) (c : LlmCompletion)
    → plain_answer h warning p ≡ ok c
    → warning ≡ c.warning
plain_answer-warning h warning (Posted.unsent e) c q = cc
plain_answer-warning h warning (Posted.rejected e) c q = cc
plain_answer-warning h warning (Posted.unreadable e) c q = cc
plain_answer-warning h warning (Posted.replied v) c q = completion_of-warning h warning v c q

-- One request and no warning, or two and the warning.
one_request : (w : Option String) → none ≡ w → (is_some w ≡ true) ↔ (◌≡◌ {A = ℕ} 1 2)
one_request w e = (λ h. cc (subst (λ o. is_some o ≡ true) (sym e) h), λ h. absurd (omega arith))

two_requests : (w : Option String) → some retried ≡ w → (is_some w ≡ true) ↔ (◌≡◌ {A = ℕ} 2 2)
two_requests w e = (λ h. refl, λ h. subst (λ o. is_some o ≡ true) e refl)

after_first-IsFrugal :
    (h : Http) (url : String) (auth : Option String) (reasoning plain : Json) (p : Posted)
    → IsFrugal (after_first h url auth reasoning plain p)
after_first-IsFrugal h url auth reasoning plain (Posted.replied v) =
    (omega arith, λ c e. one_request c.warning (completion_of-warning h none v c e))
after_first-IsFrugal h url auth reasoning plain (Posted.unreadable x) = (omega arith, λ c e. cc)
after_first-IsFrugal h url auth reasoning plain (Posted.unsent x) =
    (omega arith, λ c e. two_requests c.warning (plain_answer-warning h (some retried) _ c e))
after_first-IsFrugal h url auth reasoning plain (Posted.rejected x) =
    (omega arith, λ c e. two_requests c.warning (plain_answer-warning h (some retried) _ c e))

-- Whatever the endpoint answers, a completion takes at most two requests, and it carries the warning
-- exactly when the second request was needed.
pub raw_chat_complete-IsFrugal :
    (h : Http) (cfg : LlmConfig) (system user : String)
    → IsFrugal (raw_chat_complete h cfg system user)
unfolding raw_chat_complete chat_with
raw_chat_complete-IsFrugal h cfg system user = go (authorization h cfg)
  where
    go : (auth : Result String (Option String)) → IsFrugal (with_headers h cfg system user auth)
    go (err e) = (omega arith, λ c q. cc)
    go (ok auth) = elim (Bool-cases (contains "api.groq.com" cfg.base_url)) [
      | inl g ↦
          rw (g, chat_with)
            (omega arith, λ c e. one_request c.warning (plain_answer-warning h none _ c e))
      | inr g ↦
          rw (g, chat_with)
            (after_first-IsFrugal h (trim_slashes cfg.base_url ++ "/chat/completions") auth
              (body_with_reasoning cfg system user) (body_plain cfg system user)
              (h.post (trim_slashes cfg.base_url ++ "/chat/completions") auth
                (body_with_reasoning cfg system user)))
    ]
