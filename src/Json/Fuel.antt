-- ===== src/Json/Fuel.antt =====
-- The fuel of the walk is enough for every sequence of tokens, also one that is no document.
use kokoro_scheduler.Base.{
  ℕ, zero, suc, ◌+◌, ◌*◌, ◌≤◌, ◌≡◌, refl, ap, ◌≢◌, inl, inr, Bool, true, false, some, List, [], ◌∷◌,
  arith, if◌then◌else◌, length, Bool-cases, Text,
}
use kokoro_scheduler.Json.Walk.{
  Token, open_object, close_object, open_array, close_array, text_token, scalar, broken, WalkError,
  end_of_tokens, syntax, key_not_string, duplicate_key, object_not_closed, array_not_closed,
  unexpected_delimiter, trailing_json, out_of_fuel, Walked, left, failed, has_more, has_key,
  read_key, close_object_walk, close_array_walk, then_walk, walk, walk_members, walk_elements,
  check_end, ensured, ensure_no_duplicate_keys,
}

-- A walk that leaves fewer tokens than the bound, or fails for a reason of the source.
abbrev Ends : ℕ → Walked → Type 0
Ends bound (left ts) = suc (length ts) ≤ bound
Ends bound (failed e) = e ≢ out_of_fuel

is_fuel : WalkError → Bool
is_fuel out_of_fuel = true
is_fuel end_of_tokens = false
is_fuel syntax = false
is_fuel key_not_string = false
is_fuel duplicate_key = false
is_fuel object_not_closed = false
is_fuel array_not_closed = false
is_fuel unexpected_delimiter = false
is_fuel trailing_json = false

other_error : (e : WalkError) → is_fuel e ≡ false → e ≢ out_of_fuel
unfolding is_fuel
other_error e h same = let raised = ap is_fuel same in cc

Ends-le : (a b : ℕ) (w : Walked) → a ≤ b → Ends a w → Ends b w
Ends-le a b (left ts) le h = omega arith
Ends-le a b (failed e) le h = h

then_walk-Ends :
    (a b : ℕ) (w : Walked) (f : List Token → Walked)
    → Ends a w
    → ((ts : List Token) → suc (length ts) ≤ a → Ends b (f ts))
    → Ends b (then_walk w f)
then_walk-Ends a b (left ts) f h k = k ts h
then_walk-Ends a b (failed e) f h k = h

close_object_walk-Ends : (ts : List Token) → Ends (length ts) (close_object_walk ts)
unfolding close_object_walk is_fuel
close_object_walk-Ends [] = other_error _ refl
close_object_walk-Ends (close_object ∷ ts) = omega arith
close_object_walk-Ends (open_object ∷ ts) = other_error _ refl
close_object_walk-Ends (open_array ∷ ts) = other_error _ refl
close_object_walk-Ends (close_array ∷ ts) = other_error _ refl
close_object_walk-Ends (text_token s ∷ ts) = other_error _ refl
close_object_walk-Ends (scalar ∷ ts) = other_error _ refl
close_object_walk-Ends (broken ∷ ts) = other_error _ refl

close_array_walk-Ends : (ts : List Token) → Ends (length ts) (close_array_walk ts)
unfolding close_array_walk is_fuel
close_array_walk-Ends [] = other_error _ refl
close_array_walk-Ends (close_array ∷ ts) = omega arith
close_array_walk-Ends (open_object ∷ ts) = other_error _ refl
close_array_walk-Ends (open_array ∷ ts) = other_error _ refl
close_array_walk-Ends (close_object ∷ ts) = other_error _ refl
close_array_walk-Ends (text_token s ∷ ts) = other_error _ refl
close_array_walk-Ends (scalar ∷ ts) = other_error _ refl
close_array_walk-Ends (broken ∷ ts) = other_error _ refl

read_key-Ends :
    (seen : List Text) (ts : List Token) (f : Text → List Token → Walked)
    → ((key : Text) (rest : List Token)
        → suc (length rest) ≤ length ts
        → Ends (length ts) (f key rest))
    → Ends (length ts) (read_key seen ts f)
unfolding read_key is_fuel
read_key-Ends seen [] f k = other_error _ refl
read_key-Ends seen (broken ∷ ts) f k = other_error _ refl
read_key-Ends seen (text_token key ∷ ts) f k = elim (Bool-cases (has_key key seen)) [
  | inl old ↦ rw old (other_error duplicate_key refl)
  | inr new ↦ rw new (k key ts (omega arith))
]
read_key-Ends seen (open_object ∷ ts) f k = other_error _ refl
read_key-Ends seen (close_object ∷ ts) f k = other_error _ refl
read_key-Ends seen (open_array ∷ ts) f k = other_error _ refl
read_key-Ends seen (close_array ∷ ts) f k = other_error _ refl
read_key-Ends seen (scalar ∷ ts) f k = other_error _ refl

if-Ends :
    (b : Bool) (bound : ℕ) (v w : Walked)
    → Ends bound v
    → Ends bound w
    → Ends bound (if b then v else w)
if-Ends true bound v w p q = p
if-Ends false bound v w p q = q

mutual
  unfolding walk is_fuel

  walk-Ends : (n : ℕ) (ts : List Token) → 2 * length ts + 1 ≤ n → Ends (length ts) (walk n ts)
  walk-Ends zero ts h = absurd (omega arith)
  walk-Ends (suc n) [] h = other_error _ refl
  walk-Ends (suc n) (broken ∷ ts) h = other_error _ refl
  walk-Ends (suc n) (scalar ∷ ts) h = omega arith
  walk-Ends (suc n) (text_token s ∷ ts) h = omega arith
  walk-Ends (suc n) (close_object ∷ ts) h = other_error _ refl
  walk-Ends (suc n) (close_array ∷ ts) h = other_error _ refl
  walk-Ends (suc n) (open_object ∷ ts) h =
      Ends-le (length ts) _ (walk_members n [] ts) (omega arith)
        (walk_members-Ends n [] ts (omega arith))
  walk-Ends (suc n) (open_array ∷ ts) h =
      Ends-le (length ts) _ (walk_elements n ts) (omega arith)
        (walk_elements-Ends n ts (omega arith))

  walk_members-Ends :
      (n : ℕ) (seen : List Text) (ts : List Token)
      → 2 * length ts + 2 ≤ n
      → Ends (length ts) (walk_members n seen ts)
  walk_members-Ends zero seen ts h = absurd (omega arith)
  walk_members-Ends (suc n) seen ts h =
      if-Ends (has_more ts) (length ts) _ _
        (read_key-Ends seen ts _ (λ key rest l.
          then_walk-Ends (length rest) (length ts) (walk n rest) _ (walk-Ends n rest (omega arith))
            (λ rest' l'.
              Ends-le (length rest') (length ts) (walk_members n (key ∷ seen) rest') (omega arith)
                (walk_members-Ends n (key ∷ seen) rest' (omega arith)))))
        (close_object_walk-Ends ts)

  walk_elements-Ends :
      (n : ℕ) (ts : List Token) → 2 * length ts + 2 ≤ n → Ends (length ts) (walk_elements n ts)
  walk_elements-Ends zero ts h = absurd (omega arith)
  walk_elements-Ends (suc n) ts h =
      if-Ends (has_more ts) (length ts) _ _
        (then_walk-Ends (length ts) (length ts) (walk n ts) _ (walk-Ends n ts (omega arith))
          (λ rest l.
            Ends-le (length rest) (length ts) (walk_elements n rest) (omega arith)
              (walk_elements-Ends n rest (omega arith))))
        (close_array_walk-Ends ts)

ensured-Ends : (bound : ℕ) (w : Walked) → Ends bound w → ensured w ≢ some out_of_fuel
unfolding ensured check_end is_fuel
ensured-Ends bound (failed e) h same = h cc
ensured-Ends bound (left []) h same = cc
ensured-Ends bound (left (t ∷ ts)) h same = cc

-- On every sequence of tokens, well formed or not, the check for duplicate keys ends with a verdict
-- of the source: its fuel never runs out.
pub ensure_no_duplicate_keys-ends :
    (ts : List Token) → ensure_no_duplicate_keys ts ≢ some out_of_fuel
unfolding ensure_no_duplicate_keys
ensure_no_duplicate_keys-ends ts =
    ensured-Ends (length ts) (walk (2 * length ts + 2) ts)
      (walk-Ends (2 * length ts + 2) ts (omega arith))
