-- ===== src/Cron/Field.antt =====
-- internal/adapters/recurrence/cron.go: `parseCronField` and its helpers. The set of allowed values
-- is the list of the values that were added.
use kokoro_scheduler.Cron.Words.{atoi, contains_byte, split, lookup_name, upper}
use kokoro_scheduler.Base.{
  ℕ, zero, suc, ◌+◌, ◌-◌, Bool, false, not, ◌&&◌, ◌||◌, Option, none, some, List, [], ◌∷◌, ◌++◌,
  map, if◌then◌else◌, ◌==◌, ltb, Text, Result, ok, err, ◌>>=◌, ◌>>◌, fail_if, ℤ, pos, codes,
  text_eq, ltb_ℤ, is_empty, invalid, eqb_ℤ, Error, step_value, range_syntax, empty_element,
  range_bounds, pos_part, step_separator, cron_value,
}

pub record CronField : Type 0 where
  pub allowed : List ℤ
  pub wildcard : Bool

unfoldable pub contains_value : ℤ → List ℤ → Bool
contains_value v [] = false
contains_value v (x ∷ xs) = eqb_ℤ x v || contains_value v xs

-- `cronField.contains`.
unfoldable pub contains : CronField → ℕ → Bool
contains f v = contains_value (pos v) f.allowed

abbrev pub step_error : Error
step_error = invalid step_value

unfoldable pub step_of : Option ℤ → Result ℤ
step_of none = err step_error
step_of (some n) = if ltb_ℤ n (pos 1) then err step_error else ok n

unfoldable pub split_parts : Text → List Text → Result (Text × ℤ)
split_parts item [] = ok (item, pos 1)
split_parts item (base ∷ []) = ok (item, pos 1)
split_parts item (base ∷ step ∷ []) = step_of (atoi step) >>= λ n. ok (base, n)
split_parts item (base ∷ step ∷ extra ∷ rest) = err (invalid step_separator)

-- `splitStep`.
unfoldable pub split_step : Text → Result (Text × ℤ)
split_step item = split_parts item (split item b'/')

-- `parseCronValue`; a nil map has no names.
unfoldable pub parse_cron_value : Text → List (Text × ℤ) → Result ℤ
parse_cron_value raw names = elim (lookup_name raw names) [
  | some value ↦ ok value
  | none ↦ elim (atoi raw) [ some value ↦ ok value | none ↦ err (invalid cron_value) ]
]

unfoldable pub check_range : ℤ → ℤ → ℤ → ℤ → Result (ℤ × ℤ)
check_range minimum maximum start end =
    if ltb_ℤ start minimum
      || ltb_ℤ maximum start
      || ltb_ℤ end minimum
      || ltb_ℤ maximum end
      || ltb_ℤ end start
    then err (invalid range_bounds)
    else ok (start, end)

unfoldable pub parse_bounds : ℤ → ℤ → List (Text × ℤ) → List Text → Result (ℤ × ℤ)
parse_bounds minimum maximum names [] = err (invalid range_syntax)
parse_bounds minimum maximum names (first ∷ []) = do
  start ← parse_cron_value first names
  check_range minimum maximum start start
parse_bounds minimum maximum names (first ∷ last ∷ []) = do
  start ← parse_cron_value first names
  end ← parse_cron_value last names
  check_range minimum maximum start end
parse_bounds minimum maximum names (first ∷ last ∷ extra ∷ rest) = err (invalid range_syntax)

abbrev pub star : Text
star = codes "*"

-- `parseRange`.
unfoldable pub parse_range : Text → ℤ → ℤ → List (Text × ℤ) → Result (ℤ × ℤ)
parse_range raw minimum maximum names =
    if text_eq raw star
    then ok (minimum, maximum)
    else parse_bounds minimum maximum names (split raw b'-')

abbrev pub normalized_value : Bool → ℕ → ℤ
normalized_value normalize_sunday v = if normalize_sunday && (v == 7) then pos 0 else pos v

-- The loop over the values of a range: `n` bounds the rounds, and stops at `step > end - value`.
-- The values are not negative, since the bounds of a field are not.
unfoldable pub range_values : ℕ → Bool → ℕ → ℕ → ℕ → List ℤ
range_values zero normalize_sunday value end step = []
range_values (suc n) normalize_sunday value end step =
    let rest = range_values n normalize_sunday (value + step) end step in
    if ltb end value
    then []
    else normalized_value normalize_sunday value ∷ (if ltb (end - value) step then [] else rest)

abbrev pub has_step : Text → Bool
has_step item = contains_byte b'/' item

-- `a/step` runs to the end of the field.
unfoldable pub last_value : Text → Text → ℤ → ℤ → ℤ
last_value item base end maximum =
    if has_step item && not (text_eq base star) && not (contains_byte b'-' base)
    then maximum
    else end

-- One element of the list of a field.
unfoldable pub parse_item : ℤ → ℤ → List (Text × ℤ) → Bool → Text → Result CronField
parse_item minimum maximum names normalize_sunday item = do
  fail_if (is_empty item) (invalid empty_element)
  (base, step) ← split_step item
  (start, end) ← parse_range base minimum maximum names
  let last = last_value item base end maximum
  ok (record {
    allowed =
        range_values (suc (pos_part last)) normalize_sunday (pos_part start) (pos_part last)
          (pos_part step);
    wildcard = text_eq base star && eqb_ℤ step (pos 1);
  })

unfoldable pub parse_items : ℤ → ℤ → List (Text × ℤ) → Bool → List Text → Result CronField
parse_items minimum maximum names normalize_sunday [] =
    ok (record { allowed = []; wildcard = false })
parse_items minimum maximum names normalize_sunday (item ∷ items) = do
  field ← parse_item minimum maximum names normalize_sunday item
  rest ← parse_items minimum maximum names normalize_sunday items
  ok (record {
    allowed = field.allowed ++ rest.allowed;
    wildcard = field.wildcard || rest.wildcard;
  })

-- `parseCronField`.
unfoldable pub parse_cron_field : Text → ℤ → ℤ → List (Text × ℤ) → Bool → Result CronField
parse_cron_field raw minimum maximum names normalize_sunday =
    parse_items minimum maximum names normalize_sunday (split (map upper raw) b',')
