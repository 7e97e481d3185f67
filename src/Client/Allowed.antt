-- ===== src/Client/Allowed.antt =====
-- Where the requests of an attempt go.
use kokoro_scheduler.Base.{
  All, All-mono, ◌/◌, ◌^◌, ◌≡◌, refl, sym, subst, ◌∙◌, ◌⊎◌, inl, inr, true, ◌||◌, Option, none,
  some, List, [], ◌∷◌, ◌==◌, Text, Result, ok, err, Bool-cases, Option-cases,
}
use kokoro_scheduler.Domain.Identity.{OccurrenceIdentity}
use kokoro_scheduler.Domain.Occurrence.{DispatchWork, DispatchResult}
use kokoro_scheduler.Client.Dispatch.{
  Outside, Request, Client, dispatch, dispatch_request, dispatch_resolved, new_request,
  request_body,
}
use kokoro_scheduler.Net.Address.{
  v4, v6, invalid_addr, mapped_prefix, Addr, unmap, is_safe_target_address, is_private, is_loopback,
}
use kokoro_scheduler.Config.Opened.{allows-internal}
use kokoro_scheduler.Config.Allowlist.{
  TargetAllowlist, AllowlistParsers, allows, parse_internal_target_allowlist,
}
use kokoro_scheduler.Client.Resolve.{
  TransportError, Policy, Resolver, first_allowed, target_address_allowed, choose_address,
  resolve_target, resolve_parsed, resolve_valid,
}
use kokoro_scheduler.Net.Target.{Url, Parsers}

-- The policy that cmd/scheduler gives to the client: a nil allow-list is none.
abbrev pub client_policy : Option TargetAllowlist → Policy
client_policy none = none
client_policy (some entries) = some (allows (some entries))

-- A chosen address: an allowed one, in its own family.
IsChosen : Policy → Url × Addr → Type 0
IsChosen policy (u, address) =
    (source : Addr) × (address ≡ unmap source)
    × (target_address_allowed policy u.hostname address ≡ true)

first_allowed-allowed :
    (policy : Policy) (hostname : Text) (addresses : List Addr) {address : Addr}
    → first_allowed policy hostname addresses ≡ some address
    → (source : Addr) × (address ≡ unmap source)
      × (target_address_allowed policy hostname address ≡ true)
unfolding first_allowed
first_allowed-allowed policy hostname [] h = cc
first_allowed-allowed policy hostname (a ∷ rest) {address} h =
    elim (Bool-cases (target_address_allowed policy hostname (unmap a))) [
      | inl fine ↦
          let e : unmap a ≡ address = cc (rw fine at h) in
          (a, sym e, subst (λ (x : Addr). target_address_allowed policy hostname x ≡ true) e fine)
      | inr other ↦ first_allowed-allowed policy hostname rest (rw other at h)
    ]

choose_address-IsChosen :
    (policy : Policy) (u : Url) (addresses : TransportError ⊎ List Addr) {target : Url × Addr}
    → choose_address policy u addresses ≡ inr target
    → IsChosen policy target
unfolding choose_address IsChosen
choose_address-IsChosen policy u (inl e) h = cc
choose_address-IsChosen policy u (inr addresses) {target} h =
    elim (Option-cases (first_allowed policy u.hostname addresses)) [
      | inl nothing ↦ cc (rw nothing at h)
      | inr (address, found) ↦
          let e : (u, address) ≡ target = cc (rw found at h) in
          subst (IsChosen policy) e (first_allowed-allowed policy u.hostname addresses found)
    ]

resolve_parsed-IsChosen :
    (parsers : Parsers) (resolver : Resolver) (policy : Policy) (parse_error : TransportError)
    (o : Option Url) {target : Url × Addr}
    → resolve_parsed parsers resolver policy parse_error o ≡ inr target
    → IsChosen policy target
unfolding resolve_parsed
resolve_parsed-IsChosen parsers resolver policy parse_error none h = cc
resolve_parsed-IsChosen parsers resolver policy parse_error (some u) h =
    choose_address-IsChosen policy u _ h

resolve_valid-IsChosen :
    (parsers : Parsers) (resolver : Resolver) (policy : Policy) (parse_error : TransportError)
    (raw : Text) (checked : Result (Unit {0})) {target : Url × Addr}
    → resolve_valid parsers resolver policy parse_error raw checked ≡ inr target
    → IsChosen policy target
unfolding resolve_valid
resolve_valid-IsChosen parsers resolver policy parse_error raw (err x) h = cc
resolve_valid-IsChosen parsers resolver policy parse_error raw (ok x) h =
    resolve_parsed-IsChosen parsers resolver policy parse_error (parsers.parse_url raw) h

-- The requests of a dispatch go to a chosen address.
IsSentTo : Policy → Request → Type 0
IsSentTo policy request =
    (hostname : Text) × (source : Addr) × (request.address ≡ unmap source)
    × (target_address_allowed policy hostname request.address ≡ true)

module _ (o : Outside) (client : Client) (work : DispatchWork) where
  dispatch_request-IsSentTo :
      (result : DispatchResult) (e : Option Text) (request : Request)
      → IsSentTo client.policy request
      → All (IsSentTo client.policy) (dispatch_request o result e request).1
  unfolding dispatch_request
  dispatch_request-IsSentTo result (some e) request v = tt
  dispatch_request-IsSentTo result none request v = (v, tt)

  dispatch_resolved-IsSentTo :
      (identity : OccurrenceIdentity) (result : DispatchResult)
      (target : TransportError ⊎ (Url × Addr))
      → ((t : Url × Addr) → target ≡ inr t → IsChosen client.policy t)
      → All (IsSentTo client.policy) (dispatch_resolved o client work identity result target).1
  unfolding dispatch_resolved IsSentTo IsChosen new_request
  dispatch_resolved-IsSentTo identity result (inl e) v = tt
  dispatch_resolved-IsSentTo identity result (inr (u, address)) v =
      let (source, same, allowed) = v (u, address) refl in
      dispatch_request-IsSentTo result (o.request_error work.method work.target_url)
        (new_request o client work identity (u, address)) (u.hostname, source, same, allowed)

  dispatch-IsSentTo : All (IsSentTo client.policy) (dispatch o client work).1
  unfolding dispatch resolve_target
  dispatch-IsSentTo = elim (Bool-cases (o.json_valid (request_body work.payload))) [
    | inl valid ↦ rw valid (
        dispatch_resolved-IsSentTo _ _
          (resolve_target o.parsers o.resolver client.policy o.parse_error work.target_url)
          (λ t h.
            resolve_valid-IsChosen o.parsers o.resolver client.policy o.parse_error work.target_url
              _ h))
    | inr bad ↦ rw bad tt
  ]

unmap_idem : (a : Addr) → unmap (unmap a) ≡ unmap a
unfolding unmap
unmap_idem invalid_addr = refl
unmap_idem (v4 n) = refl
unmap_idem (v6 n zone) = elim (Bool-cases (n / 2 ^ 32 == mapped_prefix)) [
  | inl mapped ↦ rw mapped refl
  | inr plain ↦ rw (plain, plain) refl
]

-- Without an allow-list only addresses that are safe targets, with one only internal addresses.
abbrev pub IsConfined : Option TargetAllowlist → Request → Type 0
IsConfined none request = is_safe_target_address request.address ≡ true
IsConfined (some entries) request =
    (is_private request.address || is_loopback request.address) ≡ true

IsSentTo-IsConfined :
    (parsers : AllowlistParsers) (raw : Text) (policy : Option TargetAllowlist)
    → parse_internal_target_allowlist parsers raw ≡ ok policy
    → (request : Request) → IsSentTo (client_policy policy) request
    → IsConfined policy request
unfolding IsSentTo target_address_allowed
IsSentTo-IsConfined parsers raw none parsed request (hostname, source, same, allowed) = allowed
IsSentTo-IsConfined parsers raw (some entries) parsed request (hostname, source, same, allowed) =
    let opened = subst (λ (x : Addr). allows (some entries) hostname x ≡ true) same allowed in
    subst (λ (x : Addr). (is_private x || is_loopback x) ≡ true) (unmap_idem source ∙ sym same)
      (allows-internal parsers raw hostname (unmap source) parsed opened)

-- A client with the policy of a parsed allow-list sends no request to another address than its policy
-- is meant for, whatever the resolver answers: with an allow-list the address of every request is
-- private or loopback, and without one it is a safe target.
pub dispatch-IsConfined :
    (o : Outside) (token raw : Text) (parsers : AllowlistParsers) (policy : Option TargetAllowlist)
    (work : DispatchWork)
    → parse_internal_target_allowlist parsers raw ≡ ok policy
    → All
        (IsConfined policy)
        (dispatch o record { target_service_token = token; policy = client_policy policy } work).1
dispatch-IsConfined o token raw parsers policy work parsed =
    let client : Client = record { target_service_token = token; policy = client_policy policy } in
    All-mono (IsSentTo (client_policy policy)) (IsConfined policy)
      (IsSentTo-IsConfined parsers raw policy parsed) (dispatch o client work).1
      (dispatch-IsSentTo o client work)
