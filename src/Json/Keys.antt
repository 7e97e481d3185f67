-- ===== src/Json/Keys.antt =====
-- Which documents pass: the tokens of a value, and what it means that no key stands twice.
use mathlib.Core.List.{append-nil, append_assoc}
use kokoro_scheduler.Base.{
  ℕ, zero, suc, ◌+◌, ◌*◌, ◌≤◌, ◌≡◌, refl, ap, ◌∙◌, inl, inr, Bool, true, false, not, ◌&&◌, none,
  some, List, [], ◌∷◌, ◌++◌, arith, if◌then◌else◌, Text, length-append, Bool-cases, length,
}
use kokoro_scheduler.Json.Walk.{
  Token, walk, scalar, Walked, has_more, has_key, text_token, then_walk, left, walk_elements,
  close_array, failed, open_array, walk_members, duplicate_key, open_object, close_object,
  ensure_no_duplicate_keys, ensured, check_end,
}
use kokoro_scheduler.Json.{
  Value, Items, Fields, null, bool, number, string, array, object, no_items, item, no_fields, field,
}

unfoldable mutual
  pub tokens : Value → List Token
  tokens null = scalar ∷ []
  tokens (bool b) = scalar ∷ []
  tokens (number t) = scalar ∷ []
  tokens (string t) = text_token t ∷ []
  tokens (array xs) = open_array ∷ (tokens_items xs ++ close_array ∷ [])
  tokens (object fs) = open_object ∷ (tokens_fields fs ++ close_object ∷ [])

  pub tokens_items : Items → List Token
  tokens_items no_items = []
  tokens_items (item v xs) = tokens v ++ tokens_items xs

  pub tokens_fields : Fields → List Token
  tokens_fields no_fields = []
  tokens_fields (field k v fs) = text_token k ∷ (tokens v ++ tokens_fields fs)

abbrev pub keys : Fields → List Text
keys no_fields = []
keys (field k v fs) = k ∷ keys fs

-- No key is among those before it.
unfoldable pub are_fresh : List Text → List Text → Bool
are_fresh seen [] = true
are_fresh seen (k ∷ ks) = not (has_key k seen) && are_fresh (k ∷ seen) ks

unfoldable mutual
  pub is_unique : Value → Bool
  is_unique null = true
  is_unique (bool b) = true
  is_unique (number t) = true
  is_unique (string t) = true
  is_unique (array xs) = are_unique_items xs
  is_unique (object fs) = are_fresh [] (keys fs) && are_unique_fields fs

  pub are_unique_items : Items → Bool
  are_unique_items no_items = true
  are_unique_items (item v xs) = is_unique v && are_unique_items xs

  pub are_unique_fields : Fields → Bool
  are_unique_fields no_fields = true
  are_unique_fields (field k v fs) = is_unique v && are_unique_fields fs

-- What the walk over a part with these keys gives.
abbrev pub verdict : Bool → List Token → Walked
verdict unique rest = if unique then left rest else failed duplicate_key

has_more-tokens : (v : Value) (rest : List Token) → has_more (tokens v ++ rest) ≡ true
unfolding tokens has_more
has_more-tokens null rest = refl
has_more-tokens (bool b) rest = refl
has_more-tokens (number t) rest = refl
has_more-tokens (string t) rest = refl
has_more-tokens (array xs) rest = refl
has_more-tokens (object fs) rest = refl

length-tokens_pos : (v : Value) → 1 ≤ length (tokens v)
unfolding tokens
length-tokens_pos null = omega arith
length-tokens_pos (bool b) = omega arith
length-tokens_pos (number t) = omega arith
length-tokens_pos (string t) = omega arith
length-tokens_pos (array xs) = omega arith
length-tokens_pos (object fs) = omega arith

verdict_and :
    (a b : Bool) (rest ts : List Token) (w : List Token → Walked)
    → w ts ≡ verdict b rest
    → then_walk (verdict a ts) w ≡ verdict (a && b) rest
verdict_and true b rest ts w h = h
verdict_and false b rest ts w h = refl

and_swap : (a b c : Bool) → (a && (b && c)) ≡ (b && (a && c))
and_swap true b c = refl
and_swap false true c = refl
and_swap false false c = refl

-- Fuel above a positive bound is a successor.
with_fuel {ℓ} :
    (P : ℕ → Type ℓ) (bound : ℕ)
    → 1 ≤ bound
    → ((m : ℕ) → bound ≤ suc m → P (suc m))
    → (n : ℕ) → bound ≤ n
    → P n
with_fuel P bound low k zero h = absurd (omega arith)
with_fuel P bound low k (suc m) h = k m h

abbrev Walks : Value → Type 0
Walks v =
    (rest : List Token) (n : ℕ)
    → 2 * length (tokens v) ≤ n
    → walk n (tokens v ++ rest) ≡ verdict (is_unique v) rest

mutual
  unfolding tokens walk is_unique are_fresh

  walk-tokens : (v : Value) → Walks v
  walk-tokens null = λ rest. with_fuel _ 2 (omega arith) (λ m h. refl)
  walk-tokens (bool b) = λ rest. with_fuel _ 2 (omega arith) (λ m h. refl)
  walk-tokens (number t) = λ rest. with_fuel _ 2 (omega arith) (λ m h. refl)
  walk-tokens (string t) = λ rest. with_fuel _ 2 (omega arith) (λ m h. refl)
  walk-tokens (array xs) = λ rest.
      with_fuel _ (2 * length (tokens (array xs))) (omega arith) (λ m h.
        rw (append_assoc (tokens_items xs) (close_array ∷ []) rest) (
          walk_elements-tokens xs rest m
            (omega (arith, length-append (tokens_items xs) (close_array ∷ [])))))
  walk-tokens (object fs) = λ rest.
      with_fuel _ (2 * length (tokens (object fs))) (omega arith) (λ m h.
        rw (append_assoc (tokens_fields fs) (close_object ∷ []) rest) (
          walk_members-tokens fs [] rest m
            (omega (arith, length-append (tokens_fields fs) (close_object ∷ [])))))

  walk_elements-tokens :
      (xs : Items) (rest : List Token) (n : ℕ)
      → 2 * length (tokens_items xs) + 1 ≤ n
      → walk_elements n (tokens_items xs ++ close_array ∷ rest) ≡ verdict (are_unique_items xs) rest
  walk_elements-tokens no_items rest = with_fuel _ 1 (omega arith) (λ m h. refl)
  walk_elements-tokens (item v xs) rest = with_fuel _ _ (omega arith) (λ m h.
      let behind = tokens_items xs ++ close_array ∷ rest in
      let lengths = length-append (tokens v) (tokens_items xs) in
      rw
        (
          append_assoc (tokens v) (tokens_items xs) (close_array ∷ rest),
          has_more-tokens v behind,
          walk-tokens v behind m (omega (arith, lengths)),
        )
        (verdict_and (is_unique v) (are_unique_items xs) rest behind (walk_elements m)
          (walk_elements-tokens xs rest m (omega (arith, lengths, length-tokens_pos v)))))

  walk_members-tokens :
      (fs : Fields) (seen : List Text) (rest : List Token) (n : ℕ)
      → 2 * length (tokens_fields fs) + 1 ≤ n
      → walk_members n seen (tokens_fields fs ++ close_object ∷ rest)
        ≡ verdict (are_fresh seen (keys fs) && are_unique_fields fs) rest
  walk_members-tokens no_fields seen rest = with_fuel _ 1 (omega arith) (λ m h. refl)
  walk_members-tokens (field k v fs) seen rest = with_fuel _ _ (omega arith) (λ m h.
      let behind = tokens_fields fs ++ close_object ∷ rest in
      let lengths = length-append (tokens v) (tokens_fields fs) in
      elim (Bool-cases (has_key k seen)) [
        | inl old ↦ rw (old, are_fresh)
        | inr new ↦
            rw
              (
                new,
                append_assoc (tokens v) (tokens_fields fs) (close_object ∷ rest),
                are_fresh,
                walk-tokens v behind m (omega (arith, lengths)),
                and_swap (are_fresh (k ∷ seen) (keys fs)) (is_unique v) (are_unique_fields fs),
              )
              (verdict_and (is_unique v) (are_fresh (k ∷ seen) (keys fs) && are_unique_fields fs)
                rest behind (walk_members m (k ∷ seen))
                (walk_members-tokens fs (k ∷ seen) rest m
                  (omega (arith, lengths, length-tokens_pos v))))
      ])

ensured-verdict : (b : Bool) → ensured (verdict b []) ≡ (if b then none else some duplicate_key)
unfolding ensured check_end
ensured-verdict true = refl
ensured-verdict false = refl

-- A document that is one JSON value is accepted exactly if no object in it, however deep, has a key
-- twice; otherwise the error is the one for a duplicate key.
pub ensure_no_duplicate_keys_lem :
    (v : Value)
    → ensure_no_duplicate_keys (tokens v) ≡ (if is_unique v then none else some duplicate_key)
unfolding ensure_no_duplicate_keys
ensure_no_duplicate_keys_lem v =
    let whole = walk-tokens v [] (2 * length (tokens v) + 2) (omega arith) in
    ap ensured (rw append-nil at whole) ∙ ensured-verdict (is_unique v)
