-- ===== src/Net/Target.antt =====
-- internal/domain/schedule.go, `validateTargetURL`. The parsers `url.Parse` and `netip.ParseAddr` are
-- arguments; a parsed URL is what its fields and methods answer. Hosts are ASCII.
use kokoro_scheduler.Net.Address.{Addr, is_safe_target_address}
use kokoro_scheduler.Cron.Words.{lower, contains_byte, is_digit, atoi}
use mathlib.Core.List.{reverse}
use kokoro_scheduler.Base.{
  Bool, true, false, not, ◌&&◌, ◌||◌, Option, none, some, [], ◌∷◌, map, if◌then◌else◌, ◌==◌, Text,
  Result, err, ◌>>◌, fail_if, ℤ, pos, is_empty, invalid, text_eq, has_prefix, ltb_ℤ, bad_host,
  empty_host, codes, bad_scheme, forbidden_host, bad_address, bad_credentials, bad_port,
}

pub record Url : Type 0 where
  pub scheme : Text
  -- `User != nil`.
  pub has_user : Bool
  pub host : Text
  -- `Hostname()` and `Port()`.
  pub hostname : Text
  pub port : Text
  pub path : Text
  pub raw_query : Text
  pub fragment : Text

pub record Parsers : Type 0 where
  pub parse_url : Text → Option Url
  pub parse_addr : Text → Option Addr

-- `strings.EqualFold` on ASCII texts.
unfoldable pub equal_fold : Text → Text → Bool
equal_fold s t = text_eq (map lower s) (map lower t)

unfoldable pub has_suffix : Text → Text → Bool
has_suffix suffix s = has_prefix (reverse suffix) (reverse s)

-- `strings.TrimSuffix(s, ".")`.
unfoldable pub trim_dot : Text → Text
trim_dot [] = []
trim_dot (c ∷ []) = if c == b'.' then [] else c ∷ []
trim_dot (c ∷ d ∷ s) = c ∷ trim_dot (d ∷ s)

unfoldable pub are_numeric : Text → Bool
are_numeric [] = true
are_numeric (c ∷ s) = (is_digit c || c == b'.') && are_numeric s

-- `numericHostname`.
unfoldable pub numeric_hostname : Text → Bool
numeric_hostname hostname = not (is_empty hostname) && are_numeric hostname

abbrev pub in_port_range : Option ℤ → Bool
in_port_range none = false
in_port_range (some n) = not (ltb_ℤ n (pos 1) || ltb_ℤ (pos 65535) n)

-- A port is absent or a number between 1 and 65535.
unfoldable pub check_port : Text → Result (Unit {0})
check_port port = fail_if (not (is_empty port || in_port_range (atoi port))) (invalid bad_port)

unfoldable pub normalized_hostname : Url → Text
normalized_hostname u = trim_dot (map lower u.hostname)

abbrev pub is_addr : Option Addr → Bool
is_addr none = false
is_addr (some a) = true

abbrev pub is_unsafe_literal : Option Addr → Bool
is_unsafe_literal none = false
is_unsafe_literal (some a) = not (is_safe_target_address a)

unfoldable pub is_local_name : Text → Bool
is_local_name hostname =
    text_eq hostname (codes "localhost")
    || has_suffix (codes ".localhost") hostname
    || contains_byte b'%' hostname

module _ (parsers : Parsers) (reject_unsafe_literal : Bool) where
  unfoldable pub check_hostname : Text → Result (Unit {0})
  check_hostname hostname = do
    fail_if (is_empty hostname) (invalid empty_host)
    fail_if (is_local_name hostname) (invalid forbidden_host)
    fail_if (not (is_addr (parsers.parse_addr hostname)) && numeric_hostname hostname)
        (invalid forbidden_host)
    fail_if (reject_unsafe_literal && is_unsafe_literal (parsers.parse_addr hostname))
        (invalid bad_address)

  unfoldable pub check_url : Url → Result (Unit {0})
  check_url u = do
    fail_if (is_empty u.host) (invalid bad_host)
    fail_if (not (equal_fold u.scheme (codes "http") || equal_fold u.scheme (codes "https")))
        (invalid bad_scheme)
    fail_if (u.has_user || not (is_empty u.fragment)) (invalid bad_credentials)
    fail_if (has_suffix (codes ":") u.host) (invalid bad_port)
    check_port u.port
    check_hostname (normalized_hostname u)

  unfoldable pub check_parsed : Option Url → Result (Unit {0})
  check_parsed none = err (invalid bad_host)
  check_parsed (some u) = check_url u

  -- `validateTargetURL`.
  unfoldable pub check_target_url : Text → Result (Unit {0})
  check_target_url raw = check_parsed (parsers.parse_url raw)

-- `ValidateTargetURL` and `ValidateTargetURLSyntax`.
unfoldable pub validate_target_url : Parsers → Text → Result (Unit {0})
validate_target_url parsers = check_target_url parsers true

unfoldable pub validate_target_url_syntax : Parsers → Text → Result (Unit {0})
validate_target_url_syntax parsers = check_target_url parsers false
