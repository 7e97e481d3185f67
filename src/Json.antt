-- ===== src/Json.antt =====
-- JSON values as the package encoding/json gives them to the program: a number keeps its text
-- (`UseNumber`), an object the order of its keys. The decoder and the encoder are arguments.
pub mod Walk
pub mod Keys
pub mod Fuel
use kokoro_scheduler.Base.{◌≡◌, Bool, Option, some, [], Text}

mutual
  pub data Value : Type 0 where
    null : Value
    bool : Bool → Value
    number : Text → Value
    string : Text → Value
    array : Items → Value
    object : Fields → Value

  pub data Items : Type 0 where
    no_items : Items
    item : Value → Items → Items

  pub data Fields : Type 0 where
    no_fields : Fields
    field : Text → Value → Fields → Fields

-- What `decoder.Decode` gives: `io.EOF`, another error, or a value with the input that is left.
pub data Decoded : Type 0 where
  end_of_input malformed : Decoded
  decoded : Value → Text → Decoded

pub record Codec : Type 0 where
  pub decode : Text → Decoded
  pub marshal : Value → Option Text

-- The decoder reads what the encoder writes for a value that it has read, and nothing is left.
pub record IsLawful (c : Codec) : Type 0 where
  pub decode-marshal :
      (raw rest canonical : Text) (v : Value)
      → c.decode raw ≡ decoded v rest
      → c.marshal v ≡ some canonical
      → c.decode canonical ≡ decoded v []
  pub decode_end : c.decode [] ≡ end_of_input
