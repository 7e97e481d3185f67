-- ===== src/Client/Resolve.antt =====
-- internal/adapters/httpclient/client.go: `resolveTarget` and the classification of errors.
use kokoro_scheduler.Base.{
  ◌⊎◌, inl, inr, Bool, true, false, Option, none, some, List, [], ◌∷◌, ◌++◌, if◌then◌else◌, Text,
  Result, ok, err, codes,
}
use kokoro_scheduler.Domain.Occurrence.{
  Code, cancelled, target_timeout, target_rejected, target_unavailable,
}
use kokoro_scheduler.Net.Address.{Addr, unmap, is_safe_target_address}
use kokoro_scheduler.Net.Target.{Url, Parsers, validate_target_url_syntax}

-- What `errors.Is` finds in an error; `inner` is the message inside of a `url.Error`, where the error
-- is one.
pub data ErrorKind : Type 0 where
  is_cancelled is_deadline is_rejected is_plain : ErrorKind

pub record TransportError : Type 0 where
  pub kind : ErrorKind
  pub message : Text
  pub inner : Option Text

-- What `ctx.Err()` answers.
pub data ContextState : Type 0 where
  live was_cancelled was_expired : ContextState

abbrev pub is_cancellation : ContextState → ErrorKind → Bool
is_cancellation was_cancelled kind = true
is_cancellation live is_cancelled = true
is_cancellation was_expired is_cancelled = true
is_cancellation live kind = false
is_cancellation was_expired kind = false

abbrev pub is_timeout : ContextState → ErrorKind → Bool
is_timeout was_expired kind = true
is_timeout live is_deadline = true
is_timeout was_cancelled is_deadline = true
is_timeout live kind = false
is_timeout was_cancelled kind = false

abbrev pub is_rejection : ErrorKind → Bool
is_rejection is_rejected = true
is_rejection is_cancelled = false
is_rejection is_deadline = false
is_rejection is_plain = false

-- `classifyTransportError`.
unfoldable pub classify_transport_error : ContextState → TransportError → Code
classify_transport_error context e =
    if is_cancellation context e.kind
    then cancelled
    else if is_timeout context e.kind
    then target_timeout
    else if is_rejection e.kind
    then target_rejected
    else target_unavailable

-- `sanitizeTransportError`, as its message.
unfoldable pub sanitize_transport_error : TransportError → Text
sanitize_transport_error e = elim e.inner [
  | none ↦ e.message
  | some message ↦ codes "dispatch target request: " ++ message
]

-- `errTargetRejected` with what it wraps.
unfoldable pub rejected : Text → TransportError
rejected detail = record {
  kind = is_rejected;
  message = codes "target rejected by outbound policy: " ++ detail;
  inner = none;
}

-- The policy of a client: `none` where no allow-list is set.
abbrev pub Policy : Type 0
Policy = Option (Text → Addr → Bool)

-- `targetAddressAllowed`.
unfoldable pub target_address_allowed : Policy → Text → Addr → Bool
target_address_allowed none hostname address = is_safe_target_address address
target_address_allowed (some allow) hostname address = allow hostname address

-- The loop over the addresses: the first one that is allowed.
unfoldable pub first_allowed : Policy → Text → List Addr → Option Addr
first_allowed policy hostname [] = none
first_allowed policy hostname (address ∷ addresses) =
    let rest = first_allowed policy hostname addresses in
    if target_address_allowed policy hostname (unmap address) then some (unmap address) else rest

abbrev pub Resolver : Type 0
Resolver = Text → TransportError ⊎ List Addr

abbrev pub wrap_resolved : TransportError ⊎ List Addr → TransportError ⊎ List Addr
wrap_resolved (inl e) =
    inl record { kind = e.kind; message = codes "resolve target host: " ++ e.message; inner = none }
wrap_resolved (inr addresses) = inr addresses

-- The addresses of a host: its own where it is a literal, and else the resolver's.
unfoldable pub host_addresses : Resolver → Text → Option Addr → TransportError ⊎ List Addr
host_addresses resolver hostname (some literal) = inr (literal ∷ [])
host_addresses resolver hostname none = wrap_resolved (resolver hostname)

abbrev pub chosen : Url → Option Addr → TransportError ⊎ (Url × Addr)
chosen u none = inl (rejected (codes "target resolved to a disallowed IP address"))
chosen u (some address) = inr (u, address)

unfoldable pub choose_address :
    Policy → Url → TransportError ⊎ List Addr → TransportError ⊎ (Url × Addr)
choose_address policy u (inl e) = inl e
choose_address policy u (inr addresses) = chosen u (first_allowed policy u.hostname addresses)

module _ (parsers : Parsers) (resolver : Resolver) (policy : Policy)
    (parse_error : TransportError) where
  unfoldable pub resolve_parsed : Option Url → TransportError ⊎ (Url × Addr)
  resolve_parsed none = inl parse_error
  resolve_parsed (some u) =
      choose_address policy u (host_addresses resolver u.hostname (parsers.parse_addr u.hostname))

  unfoldable pub resolve_valid : Text → Result (Unit {0}) → TransportError ⊎ (Url × Addr)
  resolve_valid raw (err e) = inl (rejected (codes "the URL is not valid"))
  resolve_valid raw (ok u) = resolve_parsed (parsers.parse_url raw)

  -- `resolveTarget`; the detail of a refused URL is not kept.
  unfoldable pub resolve_target : Text → TransportError ⊎ (Url × Addr)
  resolve_target raw = resolve_valid raw (validate_target_url_syntax parsers raw)
