-- ===== src/Metrics/Schema/Graph.antt =====
-- app/metrics_engine/schema_graph.py.
use outbox_service.Prelude.{
  ℕ, Bool, true, false, not, Option, none, some, List, [], ◌∷◌, String, Result, ok, err, ◌>>=◌,
  if◌then◌else◌, ◌==◌, str_eq, select, length,
}
use outbox_service.Json.{
  Json, text, array, object, Items, end_items, item, Fields, end_fields, field, get,
}

-- `JsonType`, with the "constant" that the validator gives to a value that has no path
pub data JsonType : Type 0 where
  object_type array_type string_type number_type integer_type boolean_type null_type : JsonType
  unknown_type constant_type : JsonType

-- The node classes. A `properties` dict has distinct names, as the object that it is made of.
mutual
  pub data SchemaNode : Type 0 where
    object_node : Bool → Properties → List String → SchemaNode
    array_node : Bool → SchemaNode → SchemaNode
    scalar_node : JsonType → Bool → SchemaNode

  pub data Properties : Type 0 where
    no_properties : Properties
    child : String → SchemaNode → Properties → Properties

unfoldable pub node_type : SchemaNode → JsonType
node_type (object_node _ _ _) = object_type
node_type (array_node _ _) = array_type
node_type (scalar_node t _) = t

unfoldable pub is_nullable : SchemaNode → Bool
is_nullable (object_node n _ _) = n
is_nullable (array_node n _) = n
is_nullable (scalar_node _ n) = n

-- `SchemaGraphError`, and the `AttributeError` and `TypeError` of a document that is no schema
pub data SchemaGraphError : Type 0 where
  no_items not_a_schema unhashable : SchemaGraphError

unfoldable pub type_named : String → JsonType
type_named s =
    if str_eq s "object"
    then object_type
    else if str_eq s "array"
    then array_type
    else if str_eq s "string"
    then string_type
    else if str_eq s "number"
    then number_type
    else if str_eq s "integer"
    then integer_type
    else if str_eq s "boolean"
    then boolean_type
    else if str_eq s "null"
    then null_type
    else unknown_type

-- the texts, if all are
unfoldable pub texts_of : Items → Option (List String)
texts_of end_items = some []
texts_of (item (text s) js) = elim (texts_of js) [ none ↦ none | some rest ↦ some (s ∷ rest) ]
texts_of (item _ js) = none

-- `set(...)` of texts
unfoldable pub text_set : List String → List String
text_set [] = []
text_set (s ∷ ss) = s ∷ select (λ t. not (str_eq s t)) (text_set ss)

-- `effective in supported`
unfoldable pub nullable_named : JsonType → JsonType × Bool
nullable_named null_type = (unknown_type, false)
nullable_named unknown_type = (unknown_type, false)
nullable_named t = (t, true)

-- the only member of `non_null`, where there are two members
unfoldable pub nullable_member : List String → ℕ → JsonType × Bool
unfolding nullable_named type_named
nullable_member (s ∷ []) count =
    if count == 2 then nullable_named (type_named s) else (unknown_type, false)
nullable_member _ count = (unknown_type, false)

unfoldable pub simple_nullable_type : Option (List String) → JsonType × Bool
unfolding text_set nullable_member
simple_nullable_type none = (unknown_type, false)
simple_nullable_type (some types) =
    let members = text_set types in
    nullable_member (select (λ s. not (str_eq s "null")) members) (length members)

-- `schema.get("type")`, and what the lines after it make of it
unfoldable pub type_of : Option Json → Result SchemaGraphError (JsonType × Bool)
unfolding type_named texts_of simple_nullable_type
type_of (some (text s)) = ok (type_named s, false)
type_of (some (array types)) = ok (simple_nullable_type (texts_of types))
type_of (some (object _)) = err unhashable
type_of _ = ok (unknown_type, false)

unfoldable pub characters : String → List String
characters String.[] = []
characters (String.◌∷◌ c s) = String.◌∷◌ c "" ∷ characters s

unfoldable pub keys_of : Fields → List String
keys_of end_fields = []
keys_of (field k _ fs) = k ∷ keys_of fs

-- the texts of a list whose members can be hashed; no other member is the name of a property
unfoldable pub hashed_texts : Items → Result SchemaGraphError (List String)
hashed_texts end_items = ok []
hashed_texts (item (text s) js) = hashed_texts js >>= λ rest. ok (s ∷ rest)
hashed_texts (item (array _) js) = err unhashable
hashed_texts (item (object _) js) = err unhashable
hashed_texts (item _ js) = hashed_texts js

-- `set(schema.get("required", []))`
unfoldable pub required_of : Option Json → Result SchemaGraphError (List String)
unfolding hashed_texts characters keys_of
required_of none = ok []
required_of (some (array js)) = hashed_texts js
required_of (some (text s)) = ok (characters s)
required_of (some (object fs)) = ok (keys_of fs)
required_of (some _) = err unhashable

-- the node of a type, from what its branch needs
unfoldable pub node_of :
    Result SchemaGraphError (JsonType × Bool)
    → Result SchemaGraphError (List String)
    → Result SchemaGraphError Properties
    → Result SchemaGraphError SchemaNode
    → Result SchemaGraphError SchemaNode
node_of (err e) required properties items = err e
node_of (ok (object_type, n)) required properties items =
    required >>= λ names. properties >>= λ children. ok (object_node n children names)
node_of (ok (array_type, n)) required properties items = items >>= λ node. ok (array_node n node)
node_of (ok (t, n)) required properties items = ok (scalar_node t n)

unfoldable mutual
  unfolding type_of required_of node_of get

  pub build_schema_graph : Json → Result SchemaGraphError SchemaNode
  build_schema_graph (object fs) =
      node_of (type_of (get "type" fs)) (required_of (get "required" fs)) (properties_in fs)
        (items_in fs)
  build_schema_graph _ = err not_a_schema

  -- `schema.get("properties", {})`, and a node for each
  pub properties_in : Fields → Result SchemaGraphError Properties
  properties_in end_fields = ok no_properties
  properties_in (field key j fs) =
      let here = properties_of j in
      let later = properties_in fs in if str_eq "properties" key then here else later

  pub properties_of : Json → Result SchemaGraphError Properties
  properties_of (object fs) = build_each fs
  properties_of _ = err not_a_schema

  pub build_each : Fields → Result SchemaGraphError Properties
  build_each end_fields = ok no_properties
  build_each (field name schema fs) =
      build_schema_graph schema >>= λ node. build_each fs >>= λ rest. ok (child name node rest)

  -- `schema.get("items")`, and its node
  pub items_in : Fields → Result SchemaGraphError SchemaNode
  items_in end_fields = err no_items
  items_in (field key j fs) =
      let here = items_of_array j in
      let later = items_in fs in if str_eq "items" key then here else later

  pub items_of_array : Json → Result SchemaGraphError SchemaNode
  items_of_array (object fs) =
      node_of (type_of (get "type" fs)) (required_of (get "required" fs)) (properties_in fs)
        (items_in fs)
  items_of_array _ = err no_items
