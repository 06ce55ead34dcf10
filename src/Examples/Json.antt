-- ===== src/Examples/Json.antt =====
-- A library of JSON values with the operations that the daemon uses, and frames through it.
use h9d.Prelude.{
  ℕ, ◌^◌, ◌%◌, ◌≡◌, refl, ap, arith, List, [], ◌∷◌, Option, some, none, String, if◌then◌else◌,
}
use h9d.H9def.{frame_md}
use h9d.Node.Registers.{same_string}
use h9d.Frame.Identifier.{with_header}
use h9d.Frame.Json.{to_json, from_json}
use h9d.Frame.Json.RoundTrip.{from_json-to_json}
use h9d.Json.{JsonLib, IsJson, find_key, Kind, string_kind, integer_kind, array_kind, other_kind}
use h9d.Examples.{reply, blank}
use h9d.Examples.Frames.{reply-HeaderInRange}

mutual
  pub data JsonValue : Type 0 where
    number : ℕ → JsonValue
    text : String → JsonValue
    bytes : List ℕ → JsonValue
    object : Fields → JsonValue

  pub data Fields : Type 0 where
    end : Fields
    field : String → JsonValue → Fields → Fields

abbrev fields_of : List (String × JsonValue) → Fields
fields_of [] = end
fields_of (e ∷ m) = field (e.0) (e.1) (fields_of m)

abbrev find_field : String → Fields → Option JsonValue
find_field k end = none
find_field k (field j v m) = if same_string j k then some v else find_field k m

abbrev member_of : String → JsonValue → Option JsonValue
member_of k (object m) = find_field k m
member_of k (number n) = none
member_of k (text t) = none
member_of k (bytes bs) = none

abbrev as_number : ℕ → JsonValue → Option ℕ
as_number w (number n) = some (n % 2 ^ w)
as_number w (text t) = none
as_number w (bytes bs) = none
as_number w (object m) = none

abbrev as_string : JsonValue → Option String
as_string (text t) = some t
as_string (number n) = none
as_string (bytes bs) = none
as_string (object m) = none

abbrev as_bytes : JsonValue → Option (List ℕ)
as_bytes (bytes bs) = some bs
as_bytes (text t) = none
as_bytes (number n) = none
as_bytes (object m) = none

abbrev kind_of : JsonValue → Kind
kind_of (number n) = integer_kind
kind_of (text t) = string_kind
kind_of (bytes bs) = array_kind
kind_of (object m) = other_kind

abbrev pub json_lib : JsonLib JsonValue
json_lib = record {
  member = member_of;
  kind = kind_of;
  get_bool = λ j. none;
  get_u8 = as_number 8;
  get_u16 = as_number 16;
  get_int64 = λ j. none;
  get_float = λ j. none;
  get_string = as_string;
  get_text = λ j. none;
  get_bytes = as_bytes;
  of_object = λ m. object (fields_of m);
  of_number = number;
  of_string = text;
  of_bytes = bytes;
}

find_field-fields_of :
    (k : String) (m : List (String × JsonValue)) → find_field k (fields_of m) ≡ find_key k m
find_field-fields_of k [] = refl
find_field-fields_of k (e ∷ m) = rw (find_field-fields_of k m) refl

json_lib-IsJson : IsJson JsonValue json_lib
json_lib-IsJson = record {
  member-of_object = find_field-fields_of;
  get_u8-of_number = λ n small. ap some (omega arith);
  get_u16-of_number = λ n small. ap some (omega arith);
  get_bytes-of_bytes = λ bs below. refl;
}

from_json-to_json_example :
    (j : JsonValue) × (to_json json_lib frame_md reply ≡ some j)
    × (from_json json_lib j blank
        ≡ some
            (record (with_header frame_md reply blank) { dlc = 3; data_bytes = reply.data_bytes }))
from_json-to_json_example =
    from_json-to_json json_lib json_lib-IsJson frame_md reply blank reply-HeaderInRange
      (omega arith) refl (omega arith)
