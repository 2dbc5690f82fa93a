-- ===== src/Metrics/Schema/Resolver.antt =====
-- app/metrics_engine/schema_path_resolver.py.
use outbox_service.Prelude.{
  Bool, true, ◌&&◌, ◌||◌, Option, none, some, List, [], ◌∷◌, String, Result, ok, err, ◌>>=◌,
  if◌then◌else◌, str_eq, any_of,
}
use Prim.Native.String.{◌++◌ as concat}
use outbox_service.Metrics.Paths.{
  JsonPathToken, root, array_each, property, JsonPathError, parse_json_path,
}
use outbox_service.Metrics.Schema.Graph.{
  JsonType, SchemaNode, Properties, node_type, is_nullable, object_node, array_node, no_properties,
  child,
}

pub record ResolvedPath : Type 0 where
  pub path : String
  pub json_type : JsonType
  pub iterator_path : Option String
  pub required : Bool
  pub nullable : Bool

-- `JsonPathError`, and the cases of `SchemaPathResolutionError`
pub data PathError : Type 0 where
  unparsed : JsonPathError → PathError
  not_an_object no_property not_an_array unsupported_token : PathError

-- the variables of the loop
pub record Place : Type 0 where
  pub node : SchemaNode
  pub current_path : String
  pub iterator_path : Option String
  pub required : Bool
  pub nullable : Bool

unfoldable pub find_child : String → Properties → Option SchemaNode
find_child name no_properties = none
find_child name (child k node ps) = if str_eq name k then some node else find_child name ps

unfoldable pub resolve_property : SchemaNode → String → Place → Result PathError Place
unfolding is_nullable
resolve_property (object_node _ properties required) name p = elim (find_child name properties) [
  | none ↦ err no_property
  | some node ↦ ok (record p {
    node = node;
    current_path = concat p.current_path (concat "." name);
    required = p.required && any_of (str_eq name) required;
    nullable = p.nullable || is_nullable node;
  })
]
resolve_property _ name p = err not_an_object

unfoldable pub resolve_array_each : SchemaNode → Place → Result PathError Place
unfolding is_nullable
resolve_array_each (array_node _ node) p = ok (record p {
  node = node;
  current_path = concat p.current_path "[*]";
  iterator_path = some (concat p.current_path "[*]");
  nullable = p.nullable || is_nullable node;
})
resolve_array_each _ p = err not_an_array

unfoldable pub resolve_token : JsonPathToken → Place → Result PathError Place
unfolding resolve_property resolve_array_each
resolve_token root p = err unsupported_token
resolve_token (property name) p = resolve_property p.node name p
resolve_token array_each p = resolve_array_each p.node p

-- the loop over the tokens
unfoldable pub resolve_tokens : List JsonPathToken → Place → Result PathError Place
unfolding resolve_token
resolve_tokens [] p = ok p
resolve_tokens (t ∷ ts) p = resolve_token t p >>= resolve_tokens ts

abbrev pub start_place : SchemaNode → Place
start_place node = record {
  node = node;
  current_path = "$";
  iterator_path = none;
  required = true;
  nullable = is_nullable node;
}

-- `tokens[1:]`
unfoldable pub after_first : List JsonPathToken → List JsonPathToken
after_first [] = []
after_first (_ ∷ ts) = ts

unfoldable pub parsed : {A : Type 0} → Result JsonPathError A → Result PathError A
parsed (ok a) = ok a
parsed (err e) = err (unparsed e)

abbrev pub resolved : String → Place → ResolvedPath
resolved path p = record {
  path = path;
  json_type = node_type p.node;
  iterator_path = p.iterator_path;
  required = p.required;
  nullable = p.nullable;
}

unfoldable pub resolve_path : SchemaNode → String → Result PathError ResolvedPath
unfolding resolve_tokens after_first parsed is_nullable node_type
resolve_path schema_root path = parsed (parse_json_path path) >>= λ tokens.
    resolve_tokens (after_first tokens) (start_place schema_root) >>= λ p. ok (resolved path p)
