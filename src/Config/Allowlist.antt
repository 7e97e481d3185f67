-- ===== src/Config/Allowlist.antt =====
-- internal/config/target_allowlist.go. `netip.ParsePrefix`, `netip.ParseAddr` and the JSON decoder are
-- arguments; hosts are ASCII.
use kokoro_scheduler.Base.{
  ℕ, ◌-◌, ◌*◌, ◌^◌, Bool, true, false, not, ◌&&◌, ◌||◌, Option, none, some, List, [], ◌∷◌, map,
  if◌then◌else◌, text_eq, is_empty, length, invalid, allowlist_json, allowlist_not_array,
  allowlist_host, allowlist_duplicate_host, allowlist_no_cidrs, allowlist_cidr,
  allowlist_duplicate_cidr, ◌==◌, ltb, leb, Text, Result, ok, err, ◌>>=◌, ◌>>◌, fail_if,
}
use kokoro_scheduler.Json.Walk.{Token, WalkError, ensure_no_duplicate_keys}
use kokoro_scheduler.Domain.Normalized.{bool_eq}
use kokoro_scheduler.Cron.Words.{lower, trim_space, contains_byte, split, is_digit}
use kokoro_scheduler.Net.Target.{trim_dot, is_addr}
use kokoro_scheduler.Net.Address.{
  Addr, invalid_addr, v4, v6, Prefix, prefix4, prefix6, unmap, any_contains, prefix_contains,
  v4_head, v6_head, dotted, grouped,
}
use mathlib.Core.List.{reverse}

pub record AllowlistEntry : Type 0 where
  pub host : Text
  pub cidrs : List Text

-- The policy: the prefixes of each host, the latest entry first. Its hosts are different.
abbrev pub TargetAllowlist : Type 0
TargetAllowlist = List (Text × List Prefix)

-- What `decoder.Decode` makes of the raw text: an error, or the entries, `none` for the JSON value
-- null, and whether the input ends behind them.
pub record AllowlistParsers : Type 0 where
  pub parse_addr : Text → Option Addr
  pub parse_prefix : Text → Option Prefix
  pub tokens : Text → List Token
  pub decode_entries : Text → Option (Option (List AllowlistEntry) × Bool)

-- `normalizeAllowlistHostForLookup`.
unfoldable pub normalize_host_for_lookup : Text → Text
normalize_host_for_lookup host = trim_dot (map lower host)

abbrev pub prefixes_of : TargetAllowlist → Text → List Prefix
prefixes_of [] host = []
prefixes_of ((key, prefixes) ∷ entries) host =
    if text_eq key host then prefixes else prefixes_of entries host

-- `TargetAllowlist.Allows`, `none` for a nil policy.
unfoldable pub allows : Option TargetAllowlist → Text → Addr → Bool
allows none host address = false
allows (some entries) host address =
    any_contains (prefixes_of entries (normalize_host_for_lookup host)) (unmap address)

abbrev pub prefix_addr : Prefix → Addr
prefix_addr (prefix4 start bits) = v4 start
prefix_addr (prefix6 start bits) = v6 start []

abbrev pub prefix_bits : Prefix → ℕ
prefix_bits (prefix4 start bits) = bits
prefix_bits (prefix6 start bits) = bits

-- `prefix.Masked()`.
abbrev pub masked : Prefix → Prefix
masked (prefix4 start bits) = prefix4 (v4_head start bits * 2 ^ (32 - bits)) bits
masked (prefix6 start bits) = prefix6 (v6_head start bits * 2 ^ (128 - bits)) bits

unfoldable pub prefix_eq : Prefix → Prefix → Bool
prefix_eq (prefix4 a b) (prefix4 c d) = a == c && b == d
prefix_eq (prefix6 a b) (prefix6 c d) = a == c && b == d
prefix_eq (prefix4 a b) (prefix6 c d) = false
prefix_eq (prefix6 a b) (prefix4 c d) = false

abbrev pub is4 : Addr → Bool
is4 invalid_addr = false
is4 (v4 n) = true
is4 (v6 n zone) = false

-- `internalTargetPrefixes`.
abbrev pub internal_target_prefixes : List Prefix
internal_target_prefixes =
    prefix4 (dotted 10 0 0 0) 8
    ∷ prefix4 (dotted 172 16 0 0) 12
    ∷ prefix4 (dotted 192 168 0 0) 16
    ∷ prefix4 (dotted 127 0 0 0) 8
    ∷ prefix6 (grouped 0xfc00 0) 7
    ∷ prefix6 1 128
    ∷ []

unfoldable pub is_within : Prefix → Addr → ℕ → Bool
is_within allowed address bits =
    bool_eq (is4 address) (is4 (prefix_addr allowed))
    && leb (prefix_bits allowed) bits
    && prefix_contains allowed address

unfoldable pub any_within : List Prefix → Addr → ℕ → Bool
any_within [] address bits = false
any_within (p ∷ ps) address bits = is_within p address bits || any_within ps address bits

-- `isInternalTargetPrefix`.
unfoldable pub is_internal_target_prefix : Prefix → Bool
is_internal_target_prefix prefix =
    any_within internal_target_prefixes (unmap (prefix_addr prefix)) (prefix_bits prefix)

abbrev pub is_label_byte : ℕ → Bool
is_label_byte c = (leb b'a' c && leb c b'z') || is_digit c || c == b'-'

unfoldable pub are_label_bytes : Text → Bool
are_label_bytes [] = true
are_label_bytes (c ∷ s) = is_label_byte c && are_label_bytes s

abbrev pub starts_with_dash : Text → Bool
starts_with_dash [] = false
starts_with_dash (c ∷ s) = c == b'-'

unfoldable pub check_labels : List Text → Result (Unit {0})
check_labels [] = ok tt
check_labels (label ∷ labels) = do
  fail_if
      (is_empty label
        || ltb 63 (length label)
        || starts_with_dash label
        || starts_with_dash (reverse label))
      (invalid allowlist_host)
  fail_if (not (are_label_bytes label)) (invalid allowlist_host)
  check_labels labels

unfoldable pub has_cidr : Prefix → List Prefix → Bool
has_cidr p [] = false
has_cidr p (q ∷ seen) = prefix_eq p q || has_cidr p seen

abbrev pub has_host : Text → TargetAllowlist → Bool
has_host host [] = false
has_host host ((key, prefixes) ∷ entries) = text_eq key host || has_host host entries

abbrev pub has_no_cidrs : List Text → Bool
has_no_cidrs [] = true
has_no_cidrs (c ∷ cs) = false

unfoldable pub check_cidr : Option Prefix → List Prefix → Result Prefix
check_cidr none seen = err (invalid allowlist_cidr)
check_cidr (some prefix) seen =
    fail_if (not (prefix_eq prefix (masked prefix)) || not (is_internal_target_prefix prefix))
      (invalid allowlist_cidr)
    >> (fail_if (has_cidr prefix seen) (invalid allowlist_duplicate_cidr) >> ok prefix)

abbrev pub check_tokens : Option WalkError → Result (Unit {0})
check_tokens none = ok tt
check_tokens (some e) = err (invalid allowlist_json)

module _ (parsers : AllowlistParsers) where
  -- `normalizeAllowlistHost`.
  unfoldable pub normalize_allowlist_host : Text → Result Text
  normalize_allowlist_host host =
      let normalized = normalize_host_for_lookup host in
      fail_if (is_empty host || not (text_eq (trim_space host) host)) (invalid allowlist_host)
      >> (fail_if
            (is_empty normalized || ltb 253 (length normalized) || contains_byte b'*' normalized)
            (invalid allowlist_host)
          >> (fail_if (is_addr (parsers.parse_addr normalized)) (invalid allowlist_host)
              >> (check_labels (split normalized b'.') >> ok normalized)))

  -- The loop over the CIDRs of an entry, and the one over the entries.
  unfoldable pub parse_cidrs : List Prefix → List Text → Result (List Prefix)
  parse_cidrs seen [] = ok []
  parse_cidrs seen (raw ∷ cidrs) = check_cidr (parsers.parse_prefix raw) seen >>= λ prefix.
      (parse_cidrs (prefix ∷ seen) cidrs >>= λ prefixes. ok (prefix ∷ prefixes))

  unfoldable pub parse_entry : TargetAllowlist → AllowlistEntry → Result (Text × List Prefix)
  parse_entry allowlist entry = normalize_allowlist_host entry.host >>= λ host.
      (fail_if (has_host host allowlist) (invalid allowlist_duplicate_host)
        >> (fail_if (has_no_cidrs entry.cidrs) (invalid allowlist_no_cidrs)
            >> (parse_cidrs [] entry.cidrs >>= λ prefixes. ok (host, prefixes))))

  unfoldable pub parse_entries : TargetAllowlist → List AllowlistEntry → Result TargetAllowlist
  parse_entries allowlist [] = ok allowlist
  parse_entries allowlist (entry ∷ entries) =
      parse_entry allowlist entry >>= λ parsed. parse_entries (parsed ∷ allowlist) entries

  unfoldable pub parse_decoded :
      Option (Option (List AllowlistEntry) × Bool) → Result (Option TargetAllowlist)
  parse_decoded none = err (invalid allowlist_json)
  parse_decoded (some (entries, false)) = err (invalid allowlist_json)
  parse_decoded (some (none, true)) = err (invalid allowlist_not_array)
  parse_decoded (some (some entries, true)) =
      parse_entries [] entries >>= λ allowlist. ok (some allowlist)

  -- `ParseInternalTargetAllowlist`.
  unfoldable pub parse_internal_target_allowlist : Text → Result (Option TargetAllowlist)
  parse_internal_target_allowlist raw =
      if is_empty (trim_space raw)
      then ok none
      else check_tokens (ensure_no_duplicate_keys (parsers.tokens raw))
        >> parse_decoded (parsers.decode_entries raw)
