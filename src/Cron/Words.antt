-- ===== src/Cron/Words.antt =====
-- What cron.go and calculator.go use of the packages strings and strconv, on ASCII texts.
use kokoro_scheduler.Base.{
  ℕ, ◌+◌, ◌-◌, ◌*◌, ◌≡◌, refl, Bool, true, false, ◌&&◌, ◌||◌, Option, none, some, List, [], ◌∷◌,
  ◌++◌, if◌then◌else◌, ◌==◌, ltb, leb, Text, ℤ, pos, negsuc, text_eq, int64_half, codes, sub_ℕ,
}
use mathlib.Core.List.{reverse}

abbrev pub is_space : ℕ → Bool
is_space c = c == 32 || (leb 9 c && leb c 13)

unfoldable pub trim_left : Text → Text
trim_left [] = []
trim_left (c ∷ s) = if is_space c then trim_left s else c ∷ s

-- `strings.TrimSpace`.
unfoldable pub trim_space : Text → Text
unfolding trim_left
trim_space s = reverse (trim_left (reverse (trim_left s)))

unfoldable pub upper : ℕ → ℕ
upper c = if leb b'a' c && leb c b'z' then c - 32 else c

unfoldable pub lower : ℕ → ℕ
lower c = if leb b'A' c && leb c b'Z' then c + 32 else c

-- Parts of a text, and the part that is being read.
unfoldable pub split_from : ℕ → Text → Text → List Text
split_from sep part [] = part ∷ []
split_from sep part (c ∷ s) = elim (c == sep) [
  | true ↦ part ∷ split_from sep [] s
  | false ↦ split_from sep (part ++ c ∷ []) s
]

-- `strings.Split` at a separator of one byte.
unfoldable pub split : Text → ℕ → List Text
unfolding split_from
split s sep = split_from sep [] s

abbrev pub keep_word : Text → List Text → List Text
keep_word [] words = words
keep_word (c ∷ s) words = (c ∷ s) ∷ words

unfoldable pub fields_from : Text → Text → List Text
fields_from word [] = keep_word word []
fields_from word (c ∷ s) = elim (is_space c) [
  | true ↦ keep_word word (fields_from [] s)
  | false ↦ fields_from (word ++ c ∷ []) s
]

-- `strings.Fields`.
unfoldable pub fields : Text → List Text
unfolding fields_from
fields s = fields_from [] s

unfoldable pub contains_byte : ℕ → Text → Bool
contains_byte b [] = false
contains_byte b (c ∷ s) = c == b || contains_byte b s

abbrev pub is_digit : ℕ → Bool
is_digit c = leb b'0' c && leb c b'9'

-- The value of a text of digits.
unfoldable pub read_digits : ℕ → Text → Option ℕ
read_digits n [] = some n
read_digits n (c ∷ s) =
    let rest = read_digits (n * 10 + (c - b'0')) s in if is_digit c then rest else none

abbrev pub read_number : Text → Option ℕ
read_number [] = none
read_number (c ∷ s) = read_digits 0 (c ∷ s)

abbrev pub positive_int : Option ℕ → Option ℤ
positive_int none = none
positive_int (some n) = if ltb n int64_half then some (pos n) else none

abbrev pub negative_int : Option ℕ → Option ℤ
negative_int none = none
negative_int (some n) = if leb n int64_half then some (sub_ℕ 0 n) else none

-- `strconv.Atoi`: a sign, digits, and the range of int64.
unfoldable pub atoi : Text → Option ℤ
unfolding read_digits
atoi [] = none
atoi (c ∷ s) =
    if c == b'-'
    then negative_int (read_number s)
    else if c == b'+'
    then positive_int (read_number s)
    else positive_int (read_number (c ∷ s))

-- A Go map from texts to numbers.
unfoldable pub lookup_name : Text → List (Text × ℤ) → Option ℤ
lookup_name name [] = none
lookup_name name ((key, value) ∷ rest) =
    if text_eq key name then some value else lookup_name name rest

split_list : split (codes "1,,a") b',' ≡ codes "1" ∷ [] ∷ codes "a" ∷ []
unfolding split
split_list = refl

fields_rule : fields (codes " 0  */5 *") ≡ codes "0" ∷ codes "*/5" ∷ codes "*" ∷ []
unfolding fields
fields_rule = refl

atoi_signed : atoi (codes "-12") ≡ some (negsuc 11)
unfolding atoi
atoi_signed = refl
