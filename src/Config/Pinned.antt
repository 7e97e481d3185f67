-- ===== src/Config/Pinned.antt =====
-- The database URL that the driver gets selects one schema.
use kokoro_scheduler.Base.{
  ◌≤◌, length, ◌≡◌, refl, ap, subst, inl, inr, true, false, not, ◌&&◌, Option, none, some, List, [],
  ◌∷◌, map, arith, Text, ok, fail_if, codes, text_eq, is_empty, All, Bool-cases, >>=-eq-ok,
  ok-injective, invalid, fail_if-ok, database_control, database_required, database_url,
  database_schema_key, database_override, database_schema_name, database_reserved,
}
use kokoro_scheduler.Config.Database.{
  Query, UrlLibrary, DatabaseTarget, query_values, query_del, pinned_query, check_keys,
  overrides_namespace, single_schema, is_schema_name, is_reserved_schema, is_postgres_url,
  database_target, parse_database_query, parse_database_parsed, parse_database_url,
}
use kokoro_scheduler.Domain.Identity.{has_control}
use kokoro_scheduler.Cron.Words.{lower, trim_space}
use kokoro_scheduler.Net.Target.{Url}

IsChecked : Text × List Text → Type 0
IsChecked (key, values) =
    (overrides_namespace (map lower key) ≡ false)
    × ((text_eq (map lower key) (codes "schema") && not (text_eq key (codes "schema"))) ≡ false)

-- A key that selects neither a schema nor a time zone, in whatever case it is written.
abbrev pub IsNeutral : Text × List Text → Type 0
IsNeutral (key, values) =
    (overrides_namespace (map lower key) ≡ false)
    × (text_eq (map lower key) (codes "schema") ≡ false)

check_keys-IsChecked : (query : Query) → check_keys query ≡ ok tt → All IsChecked query
unfolding check_keys IsChecked
check_keys-IsChecked [] h = tt
check_keys-IsChecked ((key, values) ∷ query) h =
    let folded = map lower key in
    let (u, exact, rest) =
      >>=-eq-ok
        (fail_if (text_eq folded (codes "schema") && not (text_eq key (codes "schema")))
          (invalid database_schema_key))
        _ h in
    let (u', free, last) =
      >>=-eq-ok (fail_if (overrides_namespace folded) (invalid database_override)) _ rest in
    ((fail_if-ok _ _ free, fail_if-ok _ _ exact), check_keys-IsChecked query last)

query_del-All :
    (P : Text × List Text → Type 0) (query : Query) (key : Text)
    → All P query
    → All P (query_del query key)
unfolding query_del
query_del-All P [] key v = tt
query_del-All P ((k, values) ∷ query) key (here, there) = elim (Bool-cases (text_eq k key)) [
  | inl same ↦ rw same (query_del-All P query key there)
  | inr apart ↦ rw apart (here, query_del-All P query key there)
]

query_del-IsNeutral :
    (query : Query) → All IsChecked query → All IsNeutral (query_del query (codes "schema"))
unfolding query_del IsChecked
query_del-IsNeutral [] v = tt
query_del-IsNeutral ((k, values) ∷ query) (here, there) =
    elim (Bool-cases (text_eq k (codes "schema"))) [
      | inl same ↦ rw same (query_del-IsNeutral query there)
      | inr apart ↦
          let other : text_eq (map lower k) (codes "schema") ≡ false =
            ground (arith, here.1, apart) in
          rw apart ((here.0, other), query_del-IsNeutral query there)
    ]

-- What is left of the query behind the two keys that are set.
abbrev pub kept_query : Query → Query
kept_query query =
    query_del (query_del (query_del query (codes "schema")) (codes "search_path"))
      (codes "timezone")

pinned_query-eq :
    (query : Query) (schema : Text)
    → pinned_query query schema
      ≡ (codes "timezone", codes "UTC" ∷ []) ∷ (codes "search_path", schema ∷ []) ∷ kept_query query
unfolding pinned_query query_del text_eq
pinned_query-eq query schema = refl

-- A schema with a lowercase identifier of 1 to 63 bytes that is not reserved and that the parsed URL
-- selects alone, and this URL with a query that selects the schema and UTC, and otherwise keeps what is
-- neutral.
abbrev pub IsPinned : UrlLibrary → Text → DatabaseTarget → Type 0
IsPinned library raw target =
    (is_schema_name target.schema_name ≡ true)
    × (1 ≤ length target.schema_name)
    × (length target.schema_name ≤ 63)
    × (is_reserved_schema target.schema_name ≡ false)
    × (u : Url) × (library.parse_url raw ≡ some u)
    × (query : Query) × (library.parse_query u.raw_query ≡ some query)
    × (query_values query (codes "schema") ≡ target.schema_name ∷ [])
    × All IsNeutral (kept_query query)
    × (target.driver_url
        ≡ library.url_string record u {
          raw_query = library.encode_query (
              (codes "timezone", codes "UTC" ∷ [])
              ∷ (codes "search_path", target.schema_name ∷ [])
              ∷ kept_query query);
        })

-- The one value that is accepted for the schema.
single_schema-parts :
    (values : List Text) {schema : Text}
    → single_schema values ≡ ok schema
    → (values ≡ schema ∷ []) × (1 ≤ length schema) × (length schema ≤ 63)
unfolding single_schema
single_schema-parts [] h = cc
single_schema-parts ([] ∷ []) h = cc
single_schema-parts ((c ∷ name) ∷ []) {schema} h =
    let e : c ∷ name ≡ schema = ground arith in
    let short : length (c ∷ name) ≤ 63 = ground arith in
    (
      ap (λ (x : Text). x ∷ []) e,
      subst (λ (x : Text). 1 ≤ length x) e (omega arith),
      subst (λ (x : Text). length x ≤ 63) e short,
    )
single_schema-parts (name ∷ other ∷ names) h = cc

module _ (library : UrlLibrary) where
  kept_query-IsNeutral :
      (query : Query) → check_keys query ≡ ok tt → All IsNeutral (kept_query query)
  kept_query-IsNeutral query checked = query_del-All IsNeutral _ (codes "timezone") (
      query_del-All IsNeutral _ (codes "search_path")
        (query_del-IsNeutral query (check_keys-IsChecked query checked)))

  query-IsPinned :
      (raw : Text) (u : Url) (o : Option Query) {target : DatabaseTarget}
      → library.parse_url raw ≡ some u
      → library.parse_query u.raw_query ≡ o
      → parse_database_query library u o ≡ ok target
      → IsPinned library raw target
  unfolding parse_database_query database_target
  query-IsPinned raw u none parsed read h = cc
  query-IsPinned raw u (some query) parsed read h =
      let (t, checked, rest) = >>=-eq-ok (check_keys query) _ h in
      let (schema, single, rest') =
        >>=-eq-ok (single_schema (query_values query (codes "schema"))) _ rest in
      let (t', named, rest'') =
        >>=-eq-ok (fail_if (not (is_schema_name schema)) (invalid database_schema_name)) _ rest' in
      let (t'', open_, last) =
        >>=-eq-ok (fail_if (is_reserved_schema schema) (invalid database_reserved)) _ rest'' in
      let (alone, given, short) =
        single_schema-parts (query_values query (codes "schema")) single in
      subst (IsPinned library raw) (ok-injective last) (
        ground (arith, fail_if-ok _ _ named),
        given,
        short,
        fail_if-ok _ _ open_,
        u,
        parsed,
        query,
        read,
        alone,
        kept_query-IsNeutral query checked,
        ap (λ (q : Query). library.url_string record u { raw_query = library.encode_query q })
            (pinned_query-eq query schema),
      )

  parsed-IsPinned :
      (raw : Text) (o : Option Url) {target : DatabaseTarget}
      → library.parse_url raw ≡ o
      → parse_database_parsed library raw o ≡ ok target
      → IsPinned library raw target
  unfolding parse_database_parsed
  parsed-IsPinned raw none parsed h = cc
  parsed-IsPinned raw (some u) parsed h =
      let (t, valid, rest) =
        >>=-eq-ok (fail_if (not (is_postgres_url raw u)) (invalid database_url)) _ h in
      query-IsPinned raw u (library.parse_query u.raw_query) parsed refl rest

-- A database URL that is accepted names one schema, by a lowercase identifier of 1 to 63 bytes that
-- is not reserved. The driver's URL is the parsed one with another query, which sets the search path to this schema and
-- the time zone to UTC, and otherwise keeps only keys that select no schema, search path, options or
-- time zone, in whatever case they are written.
pub parse_database_url-IsPinned :
    (library : UrlLibrary) (raw : Text) {target : DatabaseTarget}
    → parse_database_url library raw ≡ ok target
    → IsPinned library (trim_space raw) target
unfolding parse_database_url
parse_database_url-IsPinned library raw h =
    let (u, printable, rest) =
      >>=-eq-ok (fail_if (has_control raw) (invalid database_control)) _ h in
    let (u', given, rest') =
      >>=-eq-ok (fail_if (is_empty (trim_space raw)) (invalid database_required)) _ rest in
    parsed-IsPinned library (trim_space raw) (library.parse_url (trim_space raw)) refl rest'
