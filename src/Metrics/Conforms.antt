-- ===== src/Metrics/Conforms.antt =====
-- What a schema graph says of a document, what a path leads to in it, and what is relied on of
-- JSONPath: where it accepts a path of plain names, it finds what the path leads to.
use outbox_service.Prelude.{
  ◌≡◌, Bool, true, false, ◌||◌, Option, none, some, List, [], ◌∷◌, ◌++◌, String, ok, str_eq, all_of,
  All, All-append, OnOk, OnOk-bind, OnOk-eq, OnOk-intro, arith, inl, inr, Bool-cases, Option-cases,
  eq_iff,
}
use outbox_service.Json.{
  Json, null, true_value, false_value, number, text, array, object, items_of, Fields, get,
}
use outbox_service.Cardinality.Names.{is_label_name}
use outbox_service.Metrics.Paths.{JsonPathToken, root, array_each, property, parse_json_path}
use outbox_service.Metrics.Schema.{
  JsonType, object_type, array_type, string_type, number_type, integer_type, boolean_type,
  null_type, unknown_type, SchemaNode, object_node, array_node, scalar_node, Properties,
  no_properties, child, is_nullable, Place, start_place, find_child, resolve_property,
  resolve_array_each, resolve_token, resolve_tokens,
}

-- the value is of the type; any value is of an unknown type
abbrev pub has_type : JsonType → Json → Bool
has_type object_type (object _) = true
has_type array_type (array _) = true
has_type string_type (text _) = true
has_type number_type (number _) = true
has_type integer_type (number _) = true
has_type boolean_type true_value = true
has_type boolean_type false_value = true
has_type null_type null = true
has_type unknown_type _ = true
has_type _ _ = false

abbrev pub OnSome : (Json → Type 0) → Option Json → Type 0
OnSome P none = Unit
OnSome P (some j) = P j

unfoldable mutual
  -- A value fits a node: it is null and the node allows that, or it is of the node's type and its
  -- members fit. A property may be left out.
  pub Conforms : SchemaNode → Json → Type 0
  Conforms (object_node n ps required) (object fs) = HaveMembers ps fs
  Conforms (object_node n ps required) null = n ≡ true
  Conforms (object_node n ps required) _ = ⊥
  Conforms (array_node n node) (array js) = All (Conforms node) (items_of js)
  Conforms (array_node n node) null = n ≡ true
  Conforms (array_node n node) _ = ⊥
  Conforms (scalar_node t n) null = (n || has_type t null) ≡ true
  Conforms (scalar_node t n) j = has_type t j ≡ true

  pub HaveMembers : Properties → Fields → Type 0
  HaveMembers no_properties fs = Unit
  HaveMembers (child name node ps) fs = OnSome (Conforms node) (get name fs) × HaveMembers ps fs

abbrev pub member_list : Option Json → List Json
member_list none = []
member_list (some j) = j ∷ []

-- one step along a path
unfoldable pub step : JsonPathToken → Json → List Json
step (property name) (object fs) = member_list (get name fs)
step array_each (array js) = items_of js
step _ _ = []

unfoldable pub concat_map {ℓ κ} : {A : Type ℓ} {B : Type κ} → (A → List B) → List A → List B
concat_map f [] = []
concat_map f (x ∷ xs) = f x ++ concat_map f xs

-- the values that a path leads to
unfoldable pub walk : List JsonPathToken → Json → List Json
unfolding step concat_map
walk [] j = j ∷ []
walk (t ∷ ts) j = concat_map (walk ts) (step t j)

abbrev pub is_plain : JsonPathToken → Bool
is_plain (property name) = is_label_name name
is_plain _ = true

-- JSONPath, on the documents that fit the schema, along the paths that the schema resolves: there each
-- name is a declared property of an object and each wildcard stands at an array, or at null
abbrev pub WalksPaths : SchemaNode → (String → Json → Option (List Json)) → Type 0
WalksPaths node find =
    (path : String) (tokens : List JsonPathToken) (payload : Json) (ms : List Json)
    → parse_json_path path ≡ ok (root ∷ tokens)
    → all_of is_plain tokens ≡ true
    → ((p : Place) × (resolve_tokens tokens (start_place node) ≡ ok p))
    → Conforms node payload
    → find path payload ≡ some ms
    → ms ≡ walk tokens payload

concat_map-All :
    (P Q : Json → Type 0) (f : Json → List Json)
    → ((j : Json) → P j → All Q (f j))
    → (js : List Json) → All P js
    → All Q (concat_map f js)
unfolding concat_map
concat_map-All P Q f each [] h = tt
concat_map-All P Q f each (j ∷ js) h =
    All-append Q (f j) (concat_map f js) (each j h.0) (concat_map-All P Q f each js h.1)

find_child-Conforms :
    (name : String) (ps : Properties) (fs : Fields) (node : SchemaNode)
    → HaveMembers ps fs
    → find_child name ps ≡ some node
    → OnSome (Conforms node) (get name fs)
unfolding find_child Conforms
find_child-Conforms name no_properties fs node h found = cc
find_child-Conforms name (child k here ps) fs node h found = elim (Bool-cases (str_eq name k)) [
  | inl hit ↦
      let same : name ≡ k = (eq_iff name k).0 hit in
      let taken : some here ≡ some node = rw hit at found in
      let there : here ≡ node = cc in rw (same, ← there) h.0
  | inr miss ↦ find_child-Conforms name ps fs node h.1 (rw miss at found)
]

-- where the path leads, everything fits the node that it is resolved to
abbrev pub Leads : List Json → Place → Type 0
Leads js p = All (Conforms p.node) js

member_list-All : (P : Json → Type 0) (o : Option Json) → OnSome P o → All P (member_list o)
member_list-All P none h = tt
member_list-All P (some j) h = (h, tt)

members-Conforms :
    (n : Bool) (ps : Properties) (required : List String) (name : String) (node : SchemaNode)
    (j : Json)
    → find_child name ps ≡ some node
    → Conforms (object_node n ps required) j
    → All (Conforms node) (step (property name) j)
unfolding step Conforms
members-Conforms n ps required name node (object fs) found h =
    member_list-All (Conforms node) (get name fs) (find_child-Conforms name ps fs node h found)
members-Conforms n ps required name node null found h = tt
members-Conforms n ps required name node _ found h = tt

items-Conforms :
    (n : Bool) (node : SchemaNode) (j : Json)
    → Conforms (array_node n node) j
    → All (Conforms node) (step array_each j)
unfolding step Conforms
items-Conforms n node (array js) h = h
items-Conforms n node _ h = tt

resolve_property-Leads :
    (node : SchemaNode) (name : String) (p : Place) (j : Json)
    → Conforms node j
    → OnOk (Leads (step (property name) j)) (resolve_property node name p)
unfolding resolve_property
resolve_property-Leads (array_node n node) name p j h = tt
resolve_property-Leads (scalar_node t n) name p j h = tt
resolve_property-Leads (object_node n ps required) name p j h =
    elim (Option-cases (find_child name ps)) [
      | inl absent ↦ simp (absent, resolve_property) tt
      | inr (node, found) ↦
          simp (found, resolve_property) (members-Conforms n ps required name node j found h)
    ]

resolve_array_each-Leads :
    (node : SchemaNode) (p : Place) (j : Json)
    → Conforms node j
    → OnOk (Leads (step array_each j)) (resolve_array_each node p)
unfolding resolve_array_each
resolve_array_each-Leads (array_node n node) p j h = items-Conforms n node j h
resolve_array_each-Leads (object_node _ _ _) p j h = tt
resolve_array_each-Leads (scalar_node _ _) p j h = tt

resolve_token-Leads :
    (t : JsonPathToken) (p : Place) (j : Json)
    → Conforms p.node j
    → OnOk (Leads (step t j)) (resolve_token t p)
unfolding resolve_token
resolve_token-Leads root p j h = tt
resolve_token-Leads (property name) p j h = resolve_property-Leads p.node name p j h
resolve_token-Leads array_each p j h = resolve_array_each-Leads p.node p j h

pub resolve_tokens-Leads :
    (ts : List JsonPathToken) (p : Place) (j : Json)
    → Conforms p.node j
    → OnOk (Leads (walk ts j)) (resolve_tokens ts p)
unfolding resolve_tokens walk
resolve_tokens-Leads [] p j h = (h, tt)
resolve_tokens-Leads (t ∷ ts) p j h =
    OnOk-bind (Leads (walk (t ∷ ts) j)) (resolve_token t p) (resolve_tokens ts) (λ p1 stepped.
      OnOk-intro (Leads (walk (t ∷ ts) j)) (resolve_tokens ts p1) (λ p2 reached.
        concat_map-All (Conforms p1.node) (Conforms p2.node) (walk ts)
          (λ v fit.
            OnOk-eq (Leads (walk ts v)) (resolve_tokens ts p1) (resolve_tokens-Leads ts p1 v fit)
              reached)
          (step t j)
          (OnOk-eq (Leads (step t j)) (resolve_token t p) (resolve_token-Leads t p j h) stepped)))

-- a path that is not nullable ends at a node that does not allow null
abbrev pub IsStrict : Place → Type 0
IsStrict p = p.nullable ≡ false → is_nullable p.node ≡ false

resolve_property-IsStrict :
    (node : SchemaNode) (name : String) (p : Place) → OnOk IsStrict (resolve_property node name p)
unfolding resolve_property
resolve_property-IsStrict (array_node n node) name p = tt
resolve_property-IsStrict (scalar_node t n) name p = tt
resolve_property-IsStrict (object_node n ps required) name p =
    elim (Option-cases (find_child name ps)) [
      | inl absent ↦ simp (absent, resolve_property) tt
      | inr (node, found) ↦ simp (found, resolve_property) (λ strict. ground arith)
    ]

resolve_array_each-IsStrict :
    (node : SchemaNode) (p : Place) → OnOk IsStrict (resolve_array_each node p)
unfolding resolve_array_each
resolve_array_each-IsStrict (array_node n node) p = λ strict. ground arith
resolve_array_each-IsStrict (object_node _ _ _) p = tt
resolve_array_each-IsStrict (scalar_node _ _) p = tt

resolve_token-IsStrict : (t : JsonPathToken) (p : Place) → OnOk IsStrict (resolve_token t p)
unfolding resolve_token
resolve_token-IsStrict root p = tt
resolve_token-IsStrict (property name) p = resolve_property-IsStrict p.node name p
resolve_token-IsStrict array_each p = resolve_array_each-IsStrict p.node p

pub resolve_tokens-IsStrict :
    (ts : List JsonPathToken) (p : Place) → IsStrict p → OnOk IsStrict (resolve_tokens ts p)
unfolding resolve_tokens
resolve_tokens-IsStrict [] p strict = strict
resolve_tokens-IsStrict (t ∷ ts) p strict =
    OnOk-bind IsStrict (resolve_token t p) (resolve_tokens ts) (λ p1 stepped.
      resolve_tokens-IsStrict ts p1
        (OnOk-eq IsStrict (resolve_token t p) (resolve_token-IsStrict t p) stepped))
