-- ===== src/Json.antt =====
-- JSON values as the program handles them. A number is given by its JSON text, which no modelled
-- code looks into; the fields of an object stand in the order of `Object.entries`.
use agent_commerce.Prelude.{Bool, String, Option, if◌then◌else◌, ◌==◌, some, none, true, false}

mutual
  pub data Json : Type 0 where
    null : Json
    boolean : Bool → Json
    number : String → Json
    string : String → Json
    array : Items → Json
    object : Fields → Json

  pub data Items : Type 0 where
    nil : Items
    item : Json → Items → Items

  pub data Fields : Type 0 where
    end : Fields
    field : String → Json → Fields → Fields

-- The value of an object's field, and a value that is a text
abbrev pub get_field : String → Fields → Option Json
get_field name end = none
get_field name (field k v rest) = if k == name then some v else get_field name rest

abbrev pub field_of : String → Json → Option Json
field_of name (object fields) = get_field name fields
field_of name _ = none

abbrev pub as_text : Option Json → Option String
as_text (some (string s)) = some s
as_text _ = none

abbrev pub text_of : String → Json → Option String
text_of name j = as_text (field_of name j)

-- `isRecord`
abbrev pub is_record : Json → Bool
is_record (object fields) = true
is_record _ = false
