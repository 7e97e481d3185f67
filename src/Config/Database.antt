-- ===== src/Config/Database.antt =====
-- internal/config/config.go, `ParseDatabaseURL` and `validateRedisDBSeven`. The package net/url is an
-- argument. A query is Go's map from keys to values, in the order in which it is ranged over.
use kokoro_scheduler.Base.{
  ℕ, Bool, true, false, not, ◌&&◌, ◌||◌, Option, none, some, List, [], ◌∷◌, map, if◌then◌else◌,
  ◌==◌, ltb, leb, Text, Result, ok, err, ◌>>=◌, ◌>>◌, fail_if, codes, text_eq, is_empty, length,
  invalid, has_prefix, database_control, database_required, database_url, database_query,
  database_schema_key, database_override, database_one_schema, database_schema_name,
  database_reserved, redis_database,
}
use kokoro_scheduler.Domain.Identity.{has_control}
use kokoro_scheduler.Cron.Words.{lower, trim_space, contains_byte, is_digit}
use kokoro_scheduler.Net.Target.{Url}

abbrev pub Query : Type 0
Query = List (Text × List Text)

pub record UrlLibrary : Type 0 where
  pub parse_url : Text → Option Url
  pub parse_query : Text → Option Query
  -- `query.Encode()` and `parsed.String()`.
  pub encode_query : Query → Text
  pub url_string : Url → Text

pub record DatabaseTarget : Type 0 where
  pub driver_url : Text
  pub schema_name : Text

-- `query[key]`, `query.Del(key)` and `query.Set(key, value)`.
unfoldable pub query_values : Query → Text → List Text
query_values [] key = []
query_values ((k, values) ∷ query) key = if text_eq k key then values else query_values query key

unfoldable pub query_del : Query → Text → Query
query_del [] key = []
query_del ((k, values) ∷ query) key =
    let rest = query_del query key in if text_eq k key then rest else (k, values) ∷ rest

abbrev pub query_set : Query → Text → Text → Query
query_set query key value = (key, value ∷ []) ∷ query_del query key

-- The keys that a database URL must not have.
abbrev pub overrides_namespace : Text → Bool
overrides_namespace folded =
    text_eq folded (codes "options")
    || text_eq folded (codes "search_path")
    || text_eq folded (codes "timezone")

-- The loop over the keys.
unfoldable pub check_keys : Query → Result (Unit {0})
check_keys [] = ok tt
check_keys ((key, values) ∷ query) =
    let folded = map lower key in
    fail_if (text_eq folded (codes "schema") && not (text_eq key (codes "schema")))
      (invalid database_schema_key)
    >> (fail_if (overrides_namespace folded) (invalid database_override) >> check_keys query)

unfoldable pub single_schema : List Text → Result Text
single_schema [] = err (invalid database_one_schema)
single_schema (name ∷ []) =
    fail_if (is_empty name || ltb 63 (length name)) (invalid database_one_schema) >> ok name
single_schema (name ∷ other ∷ names) = err (invalid database_one_schema)

abbrev pub is_schema_start : ℕ → Bool
is_schema_start c = leb b'a' c && leb c b'z'

abbrev pub is_schema_byte : ℕ → Bool
is_schema_byte c = is_schema_start c || is_digit c || c == b'_'

unfoldable pub are_schema_bytes : Text → Bool
are_schema_bytes [] = true
are_schema_bytes (c ∷ s) = is_schema_byte c && are_schema_bytes s

-- The loop over the bytes of the schema's name.
unfoldable pub is_schema_name : Text → Bool
is_schema_name [] = true
is_schema_name (c ∷ s) = is_schema_start c && are_schema_bytes s

unfoldable pub is_reserved_schema : Text → Bool
is_reserved_schema name = text_eq name (codes "public") || has_prefix (codes "pg_") name

unfoldable pub is_only_slashes : Text → Bool
is_only_slashes [] = true
is_only_slashes (c ∷ s) = c == b'/' && is_only_slashes s

unfoldable pub is_postgres_url : Text → Url → Bool
is_postgres_url raw u =
    (text_eq u.scheme (codes "postgres") || text_eq u.scheme (codes "postgresql"))
    && not (is_empty u.host)
    && not (is_only_slashes u.path)
    && not (contains_byte b'#' raw)

-- The query that the driver gets.
unfoldable pub pinned_query : Query → Text → Query
pinned_query query schema =
    query_set (query_set (query_del query (codes "schema")) (codes "search_path") schema)
      (codes "timezone") (codes "UTC")

module _ (library : UrlLibrary) where
  unfoldable pub database_target : Url → Query → Text → DatabaseTarget
  database_target u query schema = record {
    driver_url =
        library.url_string
          record u { raw_query = library.encode_query (pinned_query query schema) };
    schema_name = schema;
  }

  unfoldable pub parse_database_query : Url → Option Query → Result DatabaseTarget
  parse_database_query u none = err (invalid database_query)
  parse_database_query u (some query) =
      check_keys query
      >> (single_schema (query_values query (codes "schema")) >>= λ schema.
          (fail_if (not (is_schema_name schema)) (invalid database_schema_name)
            >> (fail_if (is_reserved_schema schema) (invalid database_reserved)
                >> ok (database_target u query schema))))

  unfoldable pub parse_database_parsed : Text → Option Url → Result DatabaseTarget
  parse_database_parsed raw none = err (invalid database_url)
  parse_database_parsed raw (some u) =
      fail_if (not (is_postgres_url raw u)) (invalid database_url)
      >> parse_database_query u (library.parse_query u.raw_query)

  -- `ParseDatabaseURL`.
  unfoldable pub parse_database_url : Text → Result DatabaseTarget
  parse_database_url raw_url =
      let raw = trim_space raw_url in
      fail_if (has_control raw_url) (invalid database_control)
      >> (fail_if (is_empty raw) (invalid database_required)
          >> parse_database_parsed raw (library.parse_url raw))

  abbrev pub is_redis_seven : Option Url → Bool
  is_redis_seven none = false
  is_redis_seven (some u) =
      (text_eq u.scheme (codes "redis") || text_eq u.scheme (codes "rediss"))
      && not (is_empty u.host)
      && text_eq u.path (codes "/7")

  -- `validateRedisDBSeven`.
  unfoldable pub validate_redis_db_seven : Text → Result (Unit {0})
  validate_redis_db_seven raw =
      fail_if (not (is_redis_seven (library.parse_url raw))) (invalid redis_database)
