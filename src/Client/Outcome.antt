-- ===== src/Client/Outcome.antt =====
-- How the result of an attempt is judged by the dispatcher.
use kokoro_scheduler.Base.{
  ℕ, ◌+◌, min, ◌≡◌, refl, ◌⊎◌, inl, inr, Bool, true, ◌||◌, Option, none, some, arith, ltb, Text,
  pos, Bool-cases, ltb_ℤ,
}
use kokoro_scheduler.Client.Dispatch.{
  empty_result, work_identity, Outside, Response, Request, Client, failed, judge_status,
  is_transient_status, oversized, judge_body, max_response_body_bytes, judge_response, judge_sent,
  dispatch_request, dispatch_resolved, dispatch, request_body,
}
use kokoro_scheduler.Client.Resolve.{TransportError, ContextState, classify_transport_error}
use kokoro_scheduler.Domain.Identity.{OccurrenceIdentity}
use kokoro_scheduler.Domain.Occurrence.{
  Code, no_code, target_rejected, target_unavailable, target_permanent, target_timeout, cancelled,
  DispatchWork, DispatchResult, has_succeeded, is_retryable, is_transient_code, is_final_code,
  is_no_code,
}
use kokoro_scheduler.Net.Address.{Addr}
use kokoro_scheduler.Net.Target.{Url}

-- The code says whether the attempt is repeated, and whether it succeeded.
abbrev pub IsClassified : DispatchResult → Type 0
IsClassified r = (is_retryable r ≡ is_transient_code r.code) × (has_succeeded r ≡ is_no_code r.code)

abbrev is_failure_code : Code → Bool
is_failure_code c = is_final_code c || is_transient_code c

failed-IsClassified :
    (o : Outside) (r : DispatchResult) (c : Code) (message : Text)
    → is_failure_code c ≡ true
    → IsClassified (failed o r c message)
unfolding is_retryable has_succeeded
failed-IsClassified o r target_rejected message h = (refl, refl)
failed-IsClassified o r target_permanent message h = (refl, refl)
failed-IsClassified o r cancelled message h = (refl, refl)
failed-IsClassified o r target_unavailable message h = (ground arith, refl)
failed-IsClassified o r target_timeout message h = (ground arith, refl)
failed-IsClassified o r c message h = cc

classify-is_failure_code :
    (context : ContextState) (e : TransportError)
    → is_failure_code (classify_transport_error context e) ≡ true
unfolding classify_transport_error
classify-is_failure_code context e = ground arith

unfailed-IsClassified :
    (r : DispatchResult)
    → r.error ≡ none
    → r.code ≡ no_code
    → has_succeeded r ≡ true
    → IsClassified r
unfolding is_retryable has_succeeded
unfailed-IsClassified r clean blank good = ground (arith, clean, blank, good)

module _ (o : Outside) where
  judge_status-IsClassified :
      (r : DispatchResult) → r.error ≡ none → r.code ≡ no_code → IsClassified (judge_status o r)
  unfolding judge_status
  judge_status-IsClassified r clean blank = elim (Bool-cases (has_succeeded r)) [
    | inl good ↦ rw good (unfailed-IsClassified r clean blank good)
    | inr bad ↦ elim (Bool-cases (is_transient_status r.status)) [
      | inl transient ↦ rw (bad, transient) (failed-IsClassified o r target_unavailable _ refl)
      | inr permanent ↦ rw (bad, permanent) (failed-IsClassified o r target_permanent _ refl)
    ]
  ]

  oversized-IsClassified : (r : DispatchResult) → IsClassified (oversized o r)
  unfolding oversized
  oversized-IsClassified r = failed-IsClassified o r target_rejected _ refl

  judge_body-IsClassified :
      (r : DispatchResult) (body : Text ⊎ ℕ)
      → r.error ≡ none
      → r.code ≡ no_code
      → IsClassified (judge_body o r body)
  unfolding judge_body
  judge_body-IsClassified r (inl e) clean blank = failed-IsClassified o r target_unavailable e refl
  judge_body-IsClassified r (inr length_) clean blank =
      elim (Bool-cases (ltb max_response_body_bytes (min length_ (max_response_body_bytes + 1)))) [
        | inl long ↦ rw long (oversized-IsClassified r)
        | inr short ↦ rw short (judge_status-IsClassified r clean blank)
      ]

  judge_response-IsClassified :
      (r : DispatchResult) (response : Response)
      → r.error ≡ none
      → r.code ≡ no_code
      → IsClassified (judge_response o r response)
  unfolding judge_response
  judge_response-IsClassified r response clean blank =
      elim (Bool-cases (ltb_ℤ (pos max_response_body_bytes) response.content_length)) [
        | inl long ↦ rw long (oversized-IsClassified record r { status = response.status })
        | inr short ↦ rw short (
            judge_body-IsClassified record r { status = response.status } response.body clean blank)
      ]

  judge_sent-IsClassified :
      (r : DispatchResult) (sent : TransportError ⊎ Response)
      → r.error ≡ none
      → r.code ≡ no_code
      → IsClassified (judge_sent o r sent)
  unfolding judge_sent
  judge_sent-IsClassified r (inl e) clean blank =
      failed-IsClassified o r _ _ (classify-is_failure_code o.sending e)
  judge_sent-IsClassified r (inr response) clean blank =
      judge_response-IsClassified r response clean blank

  dispatch_request-IsClassified :
      (r : DispatchResult) (e : Option Text) (request : Request)
      → r.error ≡ none
      → r.code ≡ no_code
      → IsClassified (dispatch_request o r e request).0
  unfolding dispatch_request
  dispatch_request-IsClassified r (some e) request clean blank =
      failed-IsClassified o r target_rejected e refl
  dispatch_request-IsClassified r none request clean blank =
      judge_sent-IsClassified r (o.send request) clean blank

  dispatch_resolved-IsClassified :
      (client : Client) (work : DispatchWork) (identity : OccurrenceIdentity) (r : DispatchResult)
      (target : TransportError ⊎ (Url × Addr))
      → r.error ≡ none
      → r.code ≡ no_code
      → IsClassified (dispatch_resolved o client work identity r target).0
  unfolding dispatch_resolved
  dispatch_resolved-IsClassified client work identity r (inl e) clean blank =
      failed-IsClassified o r _ e.message (classify-is_failure_code o.resolving e)
  dispatch_resolved-IsClassified client work identity r (inr target) clean blank =
      dispatch_request-IsClassified r _ _ clean blank

-- Whatever an attempt meets, its code tells the dispatcher what to do: the attempt is repeated exactly
-- if the code is that of an unavailable or slow target, and it succeeded exactly if there is no code.
pub dispatch-IsClassified :
    (o : Outside) (client : Client) (work : DispatchWork) → IsClassified (dispatch o client work).0
unfolding dispatch
dispatch-IsClassified o client work = elim (Bool-cases (o.json_valid (request_body work.payload))) [
  | inl valid ↦ rw valid (dispatch_resolved-IsClassified o client work _ _ _ refl refl)
  | inr bad ↦
      rw bad (failed-IsClassified o (empty_result o (work_identity o work)) target_rejected _ refl)
]
