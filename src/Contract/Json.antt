-- ===== src/Contract/Json.antt =====
-- JSON values as `json.Decoder` with `UseNumber` gives them: a number is its text. The keys of an
-- object are distinct, as those of the structs that the service encodes are.
use estate_ci.Prelude.{ℤ, int_text, Text, Bool, List, [], ◌∷◌}
use estate_ci.Contract.Models.{Signature}
use estate_ci.Prelude.{bytes}
use Prim.Native.String.{String}

mutual
  pub data Json : Type 0 where
    null : Json
    boolean : Bool → Json
    string : Text → Json
    number : Text → Json
    array : Items → Json
    object : Fields → Json

  pub data Items : Type 0 where
    no_items : Items
    item : Json → Items → Items

  pub data Fields : Type 0 where
    no_fields : Fields
    field : Text → Json → Fields → Fields

-- A field whose value is a string, an integer.
abbrev pub text_field : String → Text → Fields → Fields
text_field key value rest = field (bytes key) (string value) rest

abbrev pub int_field : String → ℤ → Fields → Fields
int_field key value rest = field (bytes key) (number (int_text value)) rest

abbrev pub signature_field : Signature → Fields
signature_field s =
    field (bytes "signature")
      (object (
        text_field "algorithm" s.algorithm
          (text_field "key_id" s.key_id (text_field "value" s.value no_fields))))
      no_fields

abbrev pub texts : List Text → Items
texts [] = no_items
texts (t ∷ ts) = item (string t) (texts ts)
