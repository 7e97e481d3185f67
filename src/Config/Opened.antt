-- ===== src/Config/Opened.antt =====
-- What a parsed allow-list opens.
use kokoro_scheduler.Base.{
  ◌≡◌, subst, inl, inr, Bool, true, false, not, ◌||◌, Option, none, some, List, [], ◌∷◌, arith,
  Text, ok, fail_if, Bool-cases, All, >>=-eq-ok, ok-injective, invalid, is_empty, text_eq,
  allowlist_cidr, allowlist_duplicate_cidr, allowlist_duplicate_host, allowlist_no_cidrs,
}
use kokoro_scheduler.Cron.Words.{trim_space}
use kokoro_scheduler.Json.Walk.{ensure_no_duplicate_keys}
use kokoro_scheduler.Config.Internal.{IsAccepted, IsAccepted-internal, is_internal}
use kokoro_scheduler.Config.Allowlist.{
  AllowlistParsers, AllowlistEntry, TargetAllowlist, prefixes_of, check_cidr, has_cidr, has_host,
  has_no_cidrs, check_tokens, parse_cidrs, parse_entry, parse_entries, parse_decoded,
  parse_internal_target_allowlist, allows, normalize_allowlist_host, normalize_host_for_lookup,
  prefix_eq, masked, is_internal_target_prefix,
}
use kokoro_scheduler.Net.Address.{
  Addr, unmap, any_contains, prefix_contains, is_private, is_loopback, Prefix,
}

-- Every prefix of the policy is canonical and internal.
abbrev pub IsInternalOnly : TargetAllowlist → Type 0
IsInternalOnly [] = Unit
IsInternalOnly ((host, prefixes) ∷ entries) = All IsAccepted prefixes × IsInternalOnly entries

check_cidr-IsAccepted :
    (o : Option Prefix) (seen : List Prefix) {p : Prefix} → check_cidr o seen ≡ ok p → IsAccepted p
unfolding check_cidr
check_cidr-IsAccepted none seen h = cc
check_cidr-IsAccepted (some q) seen {p} h =
    let (u, checked, rest) =
      >>=-eq-ok
        (fail_if (not (prefix_eq q (masked q)) || not (is_internal_target_prefix q))
          (invalid allowlist_cidr))
        _ h in
    let (u', new, last) =
      >>=-eq-ok (fail_if (has_cidr q seen) (invalid allowlist_duplicate_cidr)) _ rest in
    let whole : prefix_eq q (masked q) ≡ true = ground arith in
    let internal : is_internal_target_prefix q ≡ true = ground arith in
    subst IsAccepted (ok-injective last) (whole, internal)

module _ (parsers : AllowlistParsers) where
  parse_cidrs-IsAccepted :
      (cidrs : List Text) (seen : List Prefix) {prefixes : List Prefix}
      → parse_cidrs parsers seen cidrs ≡ ok prefixes
      → All IsAccepted prefixes
  unfolding parse_cidrs
  parse_cidrs-IsAccepted [] seen h = subst (All IsAccepted) (ok-injective h) tt
  parse_cidrs-IsAccepted (raw ∷ cidrs) seen h =
      let (p, here, rest) = >>=-eq-ok (check_cidr (parsers.parse_prefix raw) seen) _ h in
      let (ps, there, last) = >>=-eq-ok (parse_cidrs parsers (p ∷ seen) cidrs) _ rest in
      subst (All IsAccepted) (ok-injective last) (
        check_cidr-IsAccepted (parsers.parse_prefix raw) seen here,
        parse_cidrs-IsAccepted cidrs (p ∷ seen) there,
      )

  parse_entry-IsAccepted :
      (allowlist : TargetAllowlist) (entry : AllowlistEntry) {parsed : Text × List Prefix}
      → parse_entry parsers allowlist entry ≡ ok parsed
      → All IsAccepted parsed.1
  unfolding parse_entry
  parse_entry-IsAccepted allowlist entry h =
      let (host, valid, rest) = >>=-eq-ok (normalize_allowlist_host parsers entry.host) _ h in
      let (u, new, rest') =
        >>=-eq-ok (fail_if (has_host host allowlist) (invalid allowlist_duplicate_host)) _ rest in
      let (u', some_, rest'') =
        >>=-eq-ok (fail_if (has_no_cidrs entry.cidrs) (invalid allowlist_no_cidrs)) _ rest' in
      let (ps, made, last) = >>=-eq-ok (parse_cidrs parsers [] entry.cidrs) _ rest'' in
      subst (λ (e : Text × List Prefix). All IsAccepted e.1) (ok-injective last)
        (parse_cidrs-IsAccepted entry.cidrs [] made)

  parse_entries-IsInternalOnly :
      (entries : List AllowlistEntry) (allowlist : TargetAllowlist) {parsed : TargetAllowlist}
      → IsInternalOnly allowlist
      → parse_entries parsers allowlist entries ≡ ok parsed
      → IsInternalOnly parsed
  unfolding parse_entries
  parse_entries-IsInternalOnly [] allowlist v h = subst IsInternalOnly (ok-injective h) v
  parse_entries-IsInternalOnly (entry ∷ entries) allowlist v h =
      let (parsed, here, rest) = >>=-eq-ok (parse_entry parsers allowlist entry) _ h in
      parse_entries-IsInternalOnly entries (parsed ∷ allowlist)
        (parse_entry-IsAccepted allowlist entry here, v) rest

  unfoldable pub IsPolicy : Option TargetAllowlist → Type 0
  IsPolicy none = Unit
  IsPolicy (some entries) = IsInternalOnly entries

  parse_decoded-IsPolicy :
      (decoded : Option (Option (List AllowlistEntry) × Bool)) {policy : Option TargetAllowlist}
      → parse_decoded parsers decoded ≡ ok policy
      → IsPolicy policy
  unfolding parse_decoded IsPolicy
  parse_decoded-IsPolicy none h = cc
  parse_decoded-IsPolicy (some (entries, false)) h = cc
  parse_decoded-IsPolicy (some (none, true)) h = cc
  parse_decoded-IsPolicy (some (some entries, true)) h =
      let (allowlist, parsed, last) = >>=-eq-ok (parse_entries parsers [] entries) _ h in
      subst IsPolicy (ok-injective last) (parse_entries-IsInternalOnly entries [] tt parsed)

  pub parse-IsPolicy :
      (raw : Text) {policy : Option TargetAllowlist}
      → parse_internal_target_allowlist parsers raw ≡ ok policy
      → IsPolicy policy
  unfolding parse_internal_target_allowlist IsPolicy
  parse-IsPolicy raw h = elim (Bool-cases (is_empty (trim_space raw))) [
    | inl blank ↦ subst IsPolicy (ok-injective (rw blank at h)) tt
    | inr filled ↦
        let (u, unique, rest) =
          >>=-eq-ok (check_tokens (ensure_no_duplicate_keys (parsers.tokens raw))) _
            (rw filled at h) in
        parse_decoded-IsPolicy (parsers.decode_entries raw) rest
  ]

prefixes_of-IsAccepted :
    (entries : TargetAllowlist) (host : Text)
    → IsInternalOnly entries
    → All IsAccepted (prefixes_of entries host)
prefixes_of-IsAccepted [] host v = tt
prefixes_of-IsAccepted ((key, prefixes) ∷ entries) host (here, there) =
    elim (Bool-cases (text_eq key host)) [
      | inl same ↦ rw same here
      | inr apart ↦ rw apart (prefixes_of-IsAccepted entries host there)
    ]

any_contains-internal :
    (prefixes : List Prefix) (a : Addr)
    → All IsAccepted prefixes
    → any_contains prefixes (unmap a) ≡ true
    → is_internal (unmap a) ≡ true
unfolding any_contains
any_contains-internal [] a v h = cc
any_contains-internal (p ∷ ps) a (here, there) h = elim (Bool-cases (prefix_contains p (unmap a))) [
  | inl inside ↦ IsAccepted-internal p a here inside
  | inr outside ↦ any_contains-internal ps a there (rw outside at h)
]

-- An address that a parsed policy allows, for whatever host, is private or loopback, also where it is
-- an IPv4 address written as IPv6: the policy opens no public, link-local or other special address.
pub allows-internal :
    (parsers : AllowlistParsers) (raw : Text) {policy : Option TargetAllowlist} (host : Text)
    (address : Addr)
    → parse_internal_target_allowlist parsers raw ≡ ok policy
    → allows policy host address ≡ true
    → (is_private (unmap address) || is_loopback (unmap address)) ≡ true
unfolding allows IsPolicy
allows-internal parsers raw {policy = none} host address parsed h = cc
allows-internal parsers raw {policy = some entries} host address parsed h =
    any_contains-internal (prefixes_of entries (normalize_host_for_lookup host)) address
      (prefixes_of-IsAccepted entries (normalize_host_for_lookup host)
        (parse-IsPolicy parsers raw parsed))
      h
