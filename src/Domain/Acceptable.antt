-- ===== src/Domain/Acceptable.antt =====
-- What a schedule satisfies that `Normalized` returns: the CHECK constraints of database/schema.sql on
-- the columns that the schedule fills, but for three. `Validate` does not test the length of the time
-- zone, which the schema limits to 128 characters; the due instant of a schedule that is not exhausted
-- may still be missing, because `Apply` computes it; and of a claim only that an exhausted schedule
-- has none is stated, because creation and update write no claim.
use kokoro_scheduler.Base.{
  refl, none, some, and_right, ◌≡◌, true, false, not, ◌&&◌, arith, ok, text_eq, codes, is_empty,
  ◌≤◌, ℤ, length, pos, eqb_ℤ→eq, ◌≤ℤ◌, Text, ◌||◌, ◌==◌, ◌⊎◌, Option, >>=-eq-ok, subst,
  ok-injective, [], ◌∷◌,
}
use kokoro_scheduler.Domain.Checks.{validate_tenant_id_iff}
use kokoro_scheduler.Domain.Time.{
  is_zero, normalize_instant, Time, millisecond, normalize_instant_idem,
}
use kokoro_scheduler.Json.{Codec, IsLawful, Decoded, decoded, end_of_input, malformed}
use kokoro_scheduler.Store.Table.{Empty}
use kokoro_scheduler.Net.Target.{validate_target_url}
use kokoro_scheduler.Cron.Words.{contains_byte}
use kokoro_scheduler.Domain.Identity.{validate_tenant_id, is_valid_name}
use kokoro_scheduler.Domain.Schedule.{
  Schedule, MisfirePolicy, is_exhausted, skip, fire_once, catch_up_bounded,
}
use kokoro_scheduler.Domain.Normalized.{
  validate_schedule, Environment, check_trigger, is_known_method, is_object_payload, check_misfire,
  is_known_overlap, check_status, is_known_status, canonicalize_json, canonicalize_decoded,
  normalized, encode, finish_decoding, normalize_fields, is_single_object, is_end, fill_defaults,
  is_object,
}
use kokoro_scheduler.Domain.Retry.{validate, IsValidPolicy, validate_iff}

-- What passes each check of `Validate`.
record Passes (env : Environment) (s : Schedule) : Type 0 where
  tenant : validate_tenant_id s.tenant_id ≡ ok tt
  name : is_valid_name s.name ≡ true
  trigger : check_trigger s ≡ ok tt
  timezone : (not (text_eq s.timezone (codes "UTC")) && not (contains_byte b'/' s.timezone)) ≡ false
  location : env.has_location s.timezone ≡ true
  target : validate_target_url env.parsers s.target_url ≡ ok tt
  method : is_known_method s.method ≡ true
  payload : is_object_payload env.codec s.payload ≡ true
  retry : validate s.retry ≡ ok tt
  misfire : check_misfire s.misfire_policy s.catch_up_limit ≡ ok tt
  overlap : is_known_overlap s.overlap_policy ≡ true
  status : check_status s ≡ ok tt

validate_schedule-Passes :
    (env : Environment) (s : Schedule) → validate_schedule env s ≡ ok tt → Passes env s
unfolding validate_schedule
validate_schedule-Passes env s h = ground arith

Passes-validate_schedule :
    (env : Environment) (s : Schedule) → Passes env s → validate_schedule env s ≡ ok tt
unfolding validate_schedule
Passes-validate_schedule env s v = rw (
  v.tenant, v.name, v.trigger, v.timezone, v.location, v.target, v.method, v.payload, v.retry,
  v.misfire, v.overlap, v.status,
)

abbrev pub IsCatchUp : MisfirePolicy → ℤ → Type 0
IsCatchUp skip limit = limit ≡ pos 1
IsCatchUp fire_once limit = limit ≡ pos 1
IsCatchUp catch_up_bounded limit = (pos 1 ≤ℤ limit) × (limit ≤ℤ pos 100)
IsCatchUp (MisfirePolicy.other t) limit = Empty

-- The constraints on a schedule, with NULL for an empty rule and for the zero instant, but for the
-- limit on the time zone's length, the presence of a due instant, and the claim's two columns
-- beyond the owner of an exhausted schedule.
pub record IsStorable (env : Environment) (s : Schedule) : Type 0 where
  pub tenant_low : 1 ≤ length s.tenant_id
  pub tenant_high : length s.tenant_id ≤ 128
  pub name : is_valid_name s.name ≡ true
  pub one_trigger : is_empty s.rule ≡ not (is_zero s.run_at)
  pub rule_short : length s.rule ≤ 256
  pub timezone_given : is_empty s.timezone ≡ false
  pub method : is_known_method s.method ≡ true
  pub payload : is_object_payload env.codec s.payload ≡ true
  pub retry : IsValidPolicy s.retry
  pub catch_up : IsCatchUp s.misfire_policy s.catch_up_limit
  pub overlap : is_known_overlap s.overlap_policy ≡ true
  pub status : is_known_status s.status ≡ true
  pub exhausted_once :
      (is_exhausted s.status && (is_zero s.run_at || not (is_zero s.next_due_at))) ≡ false
  pub unclaimed : (is_exhausted s.status && not (is_empty s.claim_owner)) ≡ false
  pub once_due :
      (not (is_zero s.run_at) && not (is_zero s.next_due_at) && not (s.run_at == s.next_due_at))
      ≡ false
  pub whole_run_at : normalize_instant s.run_at ≡ s.run_at
  pub whole_next_due_at : normalize_instant s.next_due_at ≡ s.next_due_at

check_trigger-parts :
    (s : Schedule)
    → check_trigger s ≡ ok tt
    → (is_empty s.rule ≡ not (is_zero s.run_at)) × (length s.rule ≤ 256)
unfolding check_trigger
check_trigger-parts s h = ground arith

-- `UTC`, or a name with a slash.
timezone-given :
    (timezone : Text)
    → (not (text_eq timezone (codes "UTC")) && not (contains_byte b'/' timezone)) ≡ false
    → is_empty timezone ≡ false
unfolding text_eq contains_byte
timezone-given [] h = cc
timezone-given (c ∷ s) h = refl

check_misfire-IsCatchUp :
    (m : MisfirePolicy) (limit : ℤ) → check_misfire m limit ≡ ok tt → IsCatchUp m limit
unfolding check_misfire
check_misfire-IsCatchUp skip limit h = eqb_ℤ→eq limit (pos 1) (ground arith)
check_misfire-IsCatchUp fire_once limit h = eqb_ℤ→eq limit (pos 1) (ground arith)
check_misfire-IsCatchUp catch_up_bounded limit h = ground arith
check_misfire-IsCatchUp (MisfirePolicy.other t) limit h = cc

check_status-parts :
    (s : Schedule)
    → check_status s ≡ ok tt
    → (is_known_status s.status ≡ true)
      × ((is_exhausted s.status
            && (is_zero s.run_at
                || not (is_zero s.next_due_at)
                || not (is_empty s.claim_owner)
                || not (is_zero s.claim_expires_at)))
          ≡ false)
      × ((not (is_zero s.run_at)
            && not (is_zero s.next_due_at)
            && not (normalize_instant s.run_at == normalize_instant s.next_due_at))
          ≡ false)
unfolding check_status
check_status-parts s h = ground arith

is_end-eq : (d : Decoded) → is_end d ≡ true → d ≡ end_of_input
is_end-eq end_of_input h = refl
is_end-eq malformed h = cc
is_end-eq (decoded v rest) h = cc

module _ (c : Codec) (lawful : IsLawful c) (raw canonical : Text) where
  encode-marshalled : (o : Option Text) → encode c o ≡ ok canonical → o ≡ some canonical
  unfolding encode
  encode-marshalled none h = cc
  encode-marshalled (some t) h = cc

  decoded_object :
      (d : Decoded)
      → c.decode raw ≡ d
      → is_single_object c d ≡ true
      → canonicalize_decoded c d ≡ ok canonical
      → is_object_payload c canonical ≡ true
  unfolding is_object_payload canonicalize_decoded finish_decoding
  decoded_object end_of_input e object h = cc
  decoded_object malformed e object h = cc
  decoded_object (decoded v rest) e object h =
      let end = is_end-eq (c.decode rest) (and_right (is_object v) _ object) in
      let written = encode-marshalled (c.marshal v) (rw end at h) in
      let read = lawful.decode-marshal raw rest canonical v e written in
      rw (read, lawful.decode_end) (ground (arith, object))

  -- A canonical payload is an object if the payload was.
  canonicalize_json-object :
      is_object_payload c raw ≡ true
      → canonicalize_json c raw ≡ ok canonical
      → is_object_payload c canonical ≡ true
  unfolding is_object_payload canonicalize_json
  canonicalize_json-object object h = decoded_object (c.decode raw) refl object h

normalize_instant-zero :
    (t : Time) → (t ≡ 0) ⊎ (millisecond ≤ t) → is_zero (normalize_instant t) ≡ is_zero t
unfolding normalize_instant
normalize_instant-zero t h = ground arith

normalize_fields-IsStorable :
    (env : Environment) (s : Schedule) (canonical : Text)
    → Passes env s
    → is_object_payload env.codec canonical ≡ true
    → (s.run_at ≡ 0) ⊎ (millisecond ≤ s.run_at)
    → (s.next_due_at ≡ 0) ⊎ (millisecond ≤ s.next_due_at)
    → IsStorable env (normalize_fields s canonical)
unfolding normalize_fields
normalize_fields-IsStorable env s canonical v object run_whole due_whole =
    let run = normalize_instant-zero s.run_at run_whole in
    let due = normalize_instant-zero s.next_due_at due_whole in
    let (low, high, clean) = (validate_tenant_id_iff s.tenant_id).0 v.tenant in
    let (one, short) = check_trigger-parts s v.trigger in
    let (known, once, same) = check_status-parts s v.status in
    record {
      tenant_low = low;
      tenant_high = high;
      name = v.name;
      one_trigger = rw run one;
      rule_short = short;
      timezone_given = timezone-given s.timezone v.timezone;
      method = v.method;
      payload = object;
      retry = (validate_iff s.retry).0 v.retry;
      catch_up = check_misfire-IsCatchUp s.misfire_policy s.catch_up_limit v.misfire;
      overlap = v.overlap;
      status = known;
      exhausted_once = rw (run, due) (ground (arith, once));
      unclaimed = ground (arith, once);
      once_due = rw (run, due) same;
      whole_run_at = normalize_instant_idem s.run_at;
      whole_next_due_at = normalize_instant_idem s.next_due_at;
    }

-- A schedule that `Normalized` returns satisfies `IsStorable`, under the law of the JSON codec. The instants that it is given are zero or at least a millisecond.
pub normalized-IsStorable :
    (env : Environment) (s : Schedule) {out : Schedule}
    → IsLawful env.codec
    → (s.run_at ≡ 0) ⊎ (millisecond ≤ s.run_at)
    → (s.next_due_at ≡ 0) ⊎ (millisecond ≤ s.next_due_at)
    → normalized env s ≡ ok out
    → IsStorable env out
unfolding normalized fill_defaults
normalized-IsStorable env s {out} lawful run_whole due_whole h =
    let (u, valid, rest) = >>=-eq-ok (validate_schedule env (fill_defaults s)) _ h in
    let v = validate_schedule-Passes env (fill_defaults s) valid in
    let (canonical, written, last) =
      >>=-eq-ok (canonicalize_json env.codec (fill_defaults s).payload) _ rest in
    subst (IsStorable env) (ok-injective last) (
      normalize_fields-IsStorable env (fill_defaults s) canonical v
        (canonicalize_json-object env.codec lawful (fill_defaults s).payload canonical v.payload
          written)
        run_whole due_whole)
