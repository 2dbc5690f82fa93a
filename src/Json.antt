-- ===== src/Json.antt =====
-- JSON documents as the Python objects that `json.loads` makes of them: a number is its literal.
use outbox_service.Prelude.{Option, none, some, List, [], ◌∷◌, String, if◌then◌else◌, str_eq}

mutual
  pub data Json : Type 0 where
    null true_value false_value : Json
    number : String → Json
    text : String → Json
    array : Items → Json
    object : Fields → Json

  pub data Items : Type 0 where
    end_items : Items
    item : Json → Items → Items

  pub data Fields : Type 0 where
    end_fields : Fields
    field : String → Json → Fields → Fields

-- the list of an array's values
unfoldable pub items_of : Items → List Json
items_of end_items = []
items_of (item j js) = j ∷ items_of js

-- `d.get(key)`; the keys of a dict are distinct
unfoldable pub get : String → Fields → Option Json
get key end_fields = none
get key (field k j fs) = if str_eq k key then some j else get key fs

-- the value, if it is a `str`
unfoldable pub text_of : Option Json → Option String
text_of (some (text s)) = some s
text_of _ = none
