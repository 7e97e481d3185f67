-- ===== src/Base/Results.antt =====
-- Go's `(value, error)` results.
use mathlib.Core.Path.{◌≡◌, refl}
use mathlib.Core.Bool.{Bool, true, false}
use mathlib.Core.Logic.{◌⊎◌, inl, inr}
use kokoro_scheduler.Base.Texts.{Text}

-- Why a value is refused: one constructor for each message of the code, without its text.
pub data Reason : Type 0 where
  bad_max_attempts bad_backoff bad_max_backoff bad_window : Reason
  bad_tenant_id bad_name bad_trigger bad_rule_prefix bad_timezone unknown_timezone : Reason
  bad_host bad_scheme bad_credentials bad_port empty_host forbidden_host bad_address : Reason
  bad_url bad_method bad_payload bad_retry_policy catch_up_not_one catch_up_range : Reason
  bad_misfire_policy bad_overlap_policy bad_status exhausted_not_once once_next_due : Reason
  wakeup_interval wakeup_callback lease_arguments lease_lost json_trailing json_syntax
        interval_range interval_precision interval_syntax :
      Reason
  cron_field_count cron_minute cron_hour cron_day_of_month cron_month cron_day_of_week : Reason
  cron_no_date empty_element step_separator step_value range_syntax range_bounds : Reason
  cron_value no_occurrence : Reason
  allowlist_json allowlist_not_array allowlist_host allowlist_duplicate_host : Reason
  allowlist_no_cidrs allowlist_cidr allowlist_duplicate_cidr : Reason
  duration_range integer_range claim_ttl_low bad_worker_id redis_database : Reason
  database_control database_required database_url database_query : Reason
  database_schema_key database_override database_one_schema : Reason
  database_schema_name database_reserved : Reason

-- The sentinel errors of the packages `domain` and `application`, refusals, errors of the
-- environment with their message, `fmt.Errorf("…: %w", err)` and `errors.Join`.
pub data Error : Type 0 where
  schedule_already_exists schedule_not_found schedule_exhausted schedule_changed : Error
  claim_lost invalid_dependencies invalid_command idempotency_conflict : Error
  invalid : Reason → Error
  external : Text → Error
  wrap : Reason → Error → Error
  join : Error → Error → Error

pub data Result {ℓ} (A : Type ℓ) : Type ℓ where
  ok : A → Result A
  err : Error → Result A

abbrev pub is_ok {ℓ} : {A : Type ℓ} → Result A → Bool
is_ok (err refusal) = false
is_ok (ok value) = true

-- `if test { return error }`.
abbrev pub fail_if : Bool → Error → Result (Unit {0})
fail_if true refusal = err refusal
fail_if false refusal = ok tt

-- `if err := r; err != nil { return f(err) }`.
abbrev pub map_error {ℓ} : {A : Type ℓ} → (Error → Error) → Result A → Result A
map_error f (err refusal) = err (f refusal)
map_error f (ok value) = ok value

-- `value, err := r; if err != nil { return err }`, with and without the value.
infixl 5 ◌>>=◌ ◌>>◌
abbrev pub ◌>>=◌ {ℓ κ} : {A : Type ℓ} {B : Type κ} → Result A → (A → Result B) → Result B
err refusal >>= continue = err refusal
ok value >>= continue = continue value

abbrev pub ◌>>◌ {ℓ} : {B : Type ℓ} → Result (Unit {0}) → Result B → Result B
checked >> rest = checked >>= λ done. rest

pub ok-injective {ℓ} : {A : Type ℓ} {a b : A} → ok a ≡ ok b → a ≡ b
ok-injective same = cc

-- Where a chain succeeds, both of its parts do.
pub >>=-eq-ok {ℓ κ} :
    {A : Type ℓ} {B : Type κ} (r : Result A) (continue : A → Result B) {out : B}
    → (r >>= continue) ≡ ok out
    → (value : A) × (r ≡ ok value) × (continue value ≡ ok out)
>>=-eq-ok (err refusal) continue h = cc
>>=-eq-ok (ok value) continue h = (value, refl, h)

-- A check that passes was not hit.
pub fail_if-ok : (b : Bool) (e : Error) → fail_if b e ≡ ok tt → b ≡ false
fail_if-ok true e h = cc
fail_if-ok false e h = refl

pub Result-cases {ℓ} :
    {A : Type ℓ} (r : Result A) → ((a : A) × (r ≡ ok a)) ⊎ ((e : Error) × (r ≡ err e))
Result-cases (err e) = inr (e, refl)
Result-cases (ok a) = inl (a, refl)
