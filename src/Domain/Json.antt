-- ===== src/Domain/Json.antt =====
-- JSON values, and `encoding/json` as the program uses it. The codec is a parameter: its laws say
-- what the snapshots rely on.
use delegatd.Prelude.{◌≡◌, ◌≢◌, List, [], ◌∷◌, ◌++◌, GoString, GoMap, Result, ok, Bool, ℤ, GoError}

mutual
  -- A number keeps its literal, as `UseNumber` does.
  pub data Json : Type 0 where
    null : Json
    bool : Bool → Json
    number : GoString → Json
    int : ℤ → Json
    text : GoString → Json
    array : Items → Json
    object : Fields → Json

  pub data Items : Type 0 where
    nil : Items
    cons : Json → Items → Items

  pub data Fields : Type 0 where
    end : Fields
    field : GoString → Json → Fields → Fields

-- What one call of `Decoder.Decode` does with the input that is left.
pub data Decoded : Type 0 where
  value : Json → GoString → Decoded
  eof : Decoded
  malformed : GoError → Decoded

pub record Codec : Type 0 where
  pub decode : GoString → Decoded
  -- `Encoder.Encode` with HTML escapes off
  pub encode : Json → Result GoString
  -- `json.Marshal`
  pub marshal : Json → Result GoString

-- A decoded value is encoded as a text and a line feed, and the text decodes to the value again.
pub record IsCodec (c : Codec) : Type 0 where
  pub end_of_input : c.decode [] ≡ eof
  pub stable :
      (data_read rest written : GoString) (v : Json)
      → c.decode data_read ≡ value v rest
      → c.encode v ≡ ok written
      → (text : GoString) × (written ≡ text ++ 10 ∷ []) × (text ≢ []) × (c.decode text ≡ value v [])

abbrev pub texts : List GoString → Items
texts [] = nil
texts (s ∷ ss) = cons (text s) (texts ss)

abbrev pub text_fields : GoMap GoString → Fields
text_fields [] = end
text_fields ((k, v) ∷ m) = field k (text v) (text_fields m)
