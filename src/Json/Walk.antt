-- ===== src/Json/Walk.antt =====
-- internal/application/json_validation.go: no object of a document has a key twice. A decoder is the
-- sequence of answers that its `Token` has still to give: a token, or an error at `broken`; behind
-- the last one is `io.EOF`.
use kokoro_scheduler.Base.{
  ℕ, zero, suc, ◌+◌, ◌*◌, Bool, true, false, ◌||◌, Option, none, some, List, [], ◌∷◌, if◌then◌else◌,
  Text, length, text_eq,
}

pub data Token : Type 0 where
  open_object close_object open_array close_array : Token
  text_token : Text → Token
  -- Any other value: a number, a truth value or null.
  scalar : Token
  broken : Token

pub data WalkError : Type 0 where
  end_of_tokens syntax key_not_string duplicate_key object_not_closed array_not_closed : WalkError
  unexpected_delimiter trailing_json : WalkError
  out_of_fuel : WalkError

-- What a walk leaves of the decoder, or its error.
pub data Walked : Type 0 where
  left : List Token → Walked
  failed : WalkError → Walked

-- `decoder.More()`: the next character does not close anything, and there is one.
unfoldable pub has_more : List Token → Bool
has_more [] = false
has_more (close_object ∷ ts) = false
has_more (close_array ∷ ts) = false
has_more (open_object ∷ ts) = true
has_more (open_array ∷ ts) = true
has_more (text_token s ∷ ts) = true
has_more (scalar ∷ ts) = true
has_more (broken ∷ ts) = true

unfoldable pub has_key : Text → List Text → Bool
has_key key [] = false
has_key key (k ∷ seen) = text_eq key k || has_key key seen

unfoldable pub close_object_walk : List Token → Walked
close_object_walk (close_object ∷ ts) = left ts
close_object_walk _ = failed object_not_closed

unfoldable pub close_array_walk : List Token → Walked
close_array_walk (close_array ∷ ts) = left ts
close_array_walk _ = failed array_not_closed

abbrev pub then_walk : Walked → (List Token → Walked) → Walked
then_walk (left ts) f = f ts
then_walk (failed e) f = failed e

-- The key of a member; the rest of the loop's body gets it with what follows.
unfoldable pub read_key : List Text → List Token → (Text → List Token → Walked) → Walked
read_key seen [] f = failed end_of_tokens
read_key seen (broken ∷ ts) f = failed syntax
read_key seen (text_token key ∷ ts) f = if has_key key seen then failed duplicate_key else f key ts
read_key seen (open_object ∷ ts) f = failed key_not_string
read_key seen (close_object ∷ ts) f = failed key_not_string
read_key seen (open_array ∷ ts) f = failed key_not_string
read_key seen (close_array ∷ ts) f = failed key_not_string
read_key seen (scalar ∷ ts) f = failed key_not_string

-- `walkJSON` and its two loops. A call leaves a part of the sequence that is no structural part, so
-- each costs a unit of fuel.
unfoldable mutual
  unfolding has_more close_object_walk close_array_walk read_key

  pub walk : ℕ → List Token → Walked
  walk zero ts = failed out_of_fuel
  walk (suc n) [] = failed end_of_tokens
  walk (suc n) (broken ∷ ts) = failed syntax
  walk (suc n) (scalar ∷ ts) = left ts
  walk (suc n) (text_token s ∷ ts) = left ts
  walk (suc n) (open_object ∷ ts) = walk_members n [] ts
  walk (suc n) (open_array ∷ ts) = walk_elements n ts
  walk (suc n) (close_object ∷ ts) = failed unexpected_delimiter
  walk (suc n) (close_array ∷ ts) = failed unexpected_delimiter

  pub walk_members : ℕ → List Text → List Token → Walked
  walk_members zero seen ts = failed out_of_fuel
  walk_members (suc n) seen ts =
      let member =
        read_key seen ts
          (λ key rest. then_walk (walk n rest) (λ rest'. walk_members n (key ∷ seen) rest')) in
      if has_more ts then member else close_object_walk ts

  pub walk_elements : ℕ → List Token → Walked
  walk_elements zero ts = failed out_of_fuel
  walk_elements (suc n) ts =
      let element = then_walk (walk n ts) (λ rest. walk_elements n rest) in
      if has_more ts then element else close_array_walk ts

-- The decoding behind the walk: anything but the end of the input is an error. `trailing_json` stands
-- for the decoder's own error too, where what follows is no value.
unfoldable pub check_end : List Token → Option WalkError
check_end [] = none
check_end (t ∷ ts) = some trailing_json

unfoldable pub ensured : Walked → Option WalkError
ensured (failed e) = some e
ensured (left ts) = check_end ts

-- `ensureNoDuplicateJSONKeys`, `none` for no error.
unfoldable pub ensure_no_duplicate_keys : List Token → Option WalkError
ensure_no_duplicate_keys ts = ensured (walk (2 * length ts + 2) ts)
