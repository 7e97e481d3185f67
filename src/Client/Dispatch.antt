-- ===== src/Client/Dispatch.antt =====
-- internal/adapters/httpclient/client.go, `Dispatch`: its result, and the requests that it sends.
-- The client follows no redirects, so that the transport sends one request. Its TLS server name is the
-- host of the URL.
use kokoro_scheduler.Base.{
  ℕ, ◌+◌, ◌^◌, min, ◌⊎◌, inl, inr, Bool, not, ◌||◌, Option, none, some, List, [], ◌∷◌, ◌++◌,
  if◌then◌else◌, ◌==◌, ltb, leb, Text, ℤ, pos, codes, is_empty, take, ltb_ℤ,
}
use kokoro_scheduler.Client.Resolve.{
  TransportError, ContextState, Policy, Resolver, resolve_target, classify_transport_error,
  sanitize_transport_error,
}
use kokoro_scheduler.Domain.Time.{Time}
use kokoro_scheduler.Domain.Schedule.{Method}
use kokoro_scheduler.Domain.Identity.{OccurrenceIdentity, occurrence_identity, schedule_snapshot}
use kokoro_scheduler.Domain.Occurrence.{
  Code, no_code, target_rejected, target_unavailable, target_permanent, DispatchWork,
  DispatchResult, has_succeeded,
}
use kokoro_scheduler.Net.Address.{Addr}
use kokoro_scheduler.Net.Target.{Url, Parsers, equal_fold}

pub record Request : Type 0 where
  pub method : Method
  pub url : Text
  pub host : Text
  pub address : Addr
  pub port : Text
  pub server_name : Text
  pub body : Text
  pub headers : List (Text × Text)

-- `body` is the error of reading the first bytes, or the length of the body.
pub record Response : Type 0 where
  pub status : ℕ
  pub content_length : ℤ
  pub body : Text ⊎ ℕ

abbrev pub max_response_body_bytes : ℕ
max_response_body_bytes = 2 ^ 20

-- What one attempt meets outside: the answers of the packages, the resolver and the transport, and the
-- context's state when either fails.
pub record Outside : Type 0 where
  pub parsers : Parsers
  pub resolver : Resolver
  pub parse_error : TransportError
  pub json_valid : Text → Bool
  -- The error of `http.NewRequestWithContext`.
  pub request_error : Method → Text → Option Text
  pub send : Request → TransportError ⊎ Response
  pub resolving : ContextState
  pub sending : ContextState
  pub hex_digest : Text → Text
  pub format : Time → Text
  pub show_number : ℕ → Text

pub record Client : Type 0 where
  pub target_service_token : Text
  pub policy : Policy

-- `defaultPort` and the port of a request.
unfoldable pub default_port : Text → Text
default_port scheme = if equal_fold scheme (codes "https") then codes "443" else codes "80"

unfoldable pub request_port : Url → Text
request_port u = if is_empty u.port then default_port u.scheme else u.port

abbrev pub request_body : Text → Text
request_body payload = if is_empty payload then codes "{}" else payload

abbrev pub authorization : Text → List (Text × Text)
authorization token =
    if is_empty token then [] else (codes "Authorization", codes "Bearer " ++ token) ∷ []

-- A status that is worth another attempt.
abbrev pub is_transient_status : ℕ → Bool
is_transient_status status = status == 408 || status == 425 || status == 429 || leb 500 status

module _ (o : Outside) where
  -- `traceparent`.
  unfoldable pub traceparent : Text → Text → Text
  traceparent trace_id request_id =
      codes "00-"
      ++ trace_id
      ++ codes "-"
      ++ take 16 (o.hex_digest (request_id ++ codes ":dispatch"))
      ++ codes "-01"

  unfoldable pub request_headers : Client → DispatchWork → OccurrenceIdentity → List (Text × Text)
  request_headers client work identity =
      (codes "Content-Type", codes "application/json")
      ∷ (codes "X-Kokoro-Tenant-Id", work.tenant_id)
      ∷ (codes "X-Kokoro-Scheduler-Schedule", work.schedule_name)
      ∷ (codes "X-Kokoro-Scheduler-Occurrence", o.format identity.scheduled_at)
      ∷ (codes "X-Request-Id", identity.request_id)
      ∷ (codes "Idempotency-Key", identity.idempotency_key)
      ∷ (codes "traceparent", traceparent identity.trace_id identity.request_id)
      ∷ authorization client.target_service_token

  unfoldable pub new_request : Client → DispatchWork → OccurrenceIdentity → Url × Addr → Request
  new_request client work identity (u, address) = record {
    method = work.method;
    url = work.target_url;
    host = u.host;
    address = address;
    port = request_port u;
    server_name = u.hostname;
    body = request_body work.payload;
    headers = request_headers client work identity;
  }

  abbrev pub failed : DispatchResult → Code → Text → DispatchResult
  failed result code message = record result { code = code; error = some message }

  unfoldable pub oversized : DispatchResult → DispatchResult
  oversized result = failed result target_rejected (
      codes "target response body exceeds "
      ++ o.show_number max_response_body_bytes
      ++ codes " bytes")

  -- The code of a response whose body was read.
  unfoldable pub judge_status : DispatchResult → DispatchResult
  judge_status result =
      if has_succeeded result
      then result
      else failed result
          (if is_transient_status result.status then target_unavailable else target_permanent)
          (codes "target returned HTTP " ++ o.show_number result.status)

  unfoldable pub judge_body : DispatchResult → Text ⊎ ℕ → DispatchResult
  judge_body result (inl e) = failed result target_unavailable e
  judge_body result (inr length_) =
      if ltb max_response_body_bytes (min length_ (max_response_body_bytes + 1))
      then oversized result
      else judge_status result

  unfoldable pub judge_response : DispatchResult → Response → DispatchResult
  judge_response result response =
      let answered = record result { status = response.status } in
      if ltb_ℤ (pos max_response_body_bytes) response.content_length
      then oversized answered
      else judge_body answered response.body

  unfoldable pub judge_sent : DispatchResult → TransportError ⊎ Response → DispatchResult
  judge_sent result (inl e) =
      failed result (classify_transport_error o.sending e) (sanitize_transport_error e)
  judge_sent result (inr response) = judge_response result response

  unfoldable pub dispatch_request :
      DispatchResult → Option Text → Request → DispatchResult × List Request
  dispatch_request result (some e) request = (failed result target_rejected e, [])
  dispatch_request result none request = (judge_sent result (o.send request), request ∷ [])

  unfoldable pub dispatch_resolved :
      Client
      → DispatchWork
      → OccurrenceIdentity
      → DispatchResult
      → TransportError ⊎ (Url × Addr)
      → DispatchResult × List Request
  dispatch_resolved client work identity result (inl e) =
      (failed result (classify_transport_error o.resolving e) e.message, [])
  dispatch_resolved client work identity result (inr target) =
      dispatch_request result (o.request_error work.method work.target_url)
        (new_request client work identity target)

  abbrev pub empty_result : OccurrenceIdentity → DispatchResult
  empty_result identity = record {
    status = 0;
    error = none;
    code = no_code;
    request_id = identity.request_id;
    idempotency_key = identity.idempotency_key;
    trace_id = identity.trace_id;
    duration = pos 0;
  }

  abbrev pub work_identity : DispatchWork → OccurrenceIdentity
  work_identity work =
      occurrence_identity o.hex_digest o.format (schedule_snapshot work) work.scheduled_at

  -- `Client.Dispatch`: the result, and the requests that were sent.
  unfoldable pub dispatch : Client → DispatchWork → DispatchResult × List Request
  dispatch client work =
      let result = empty_result (work_identity work) in
      if not (o.json_valid (request_body work.payload))
      then (failed result target_rejected (codes "dispatch payload is invalid JSON"), [])
      else dispatch_resolved client work (work_identity work) result
          (resolve_target o.parsers o.resolver client.policy o.parse_error work.target_url)
