-- ===== src/Metrics/Tests.antt =====
-- A metric from its document to a compiled plan: the data of the tests.
mod Extraction
mod Storage
mod Agreeing
mod Preparing
use outbox_service.Prelude.{
  ℕ, ◌≡◌, refl, true, false, ◌+◌, ◌==◌, leb, Option, none, some, List, [], ◌∷◌, String, Result, ok,
  err, sum_of, char_count, is_empty,
}
use outbox_service.Json.{
  Json, null, number, text, array, object, end_items, item, end_fields, field, get,
}
use outbox_service.Cardinality.Names.{is_business_label_name}
use outbox_service.Aggregation.Values.{Floats}
use outbox_service.Metrics.Paths.{
  JsonPathToken, JsonPathError, root, property, array_each, unsupported_bracket, parse_json_path,
  has_bracket,
}
use outbox_service.Metrics.Printed.{parse_json_path-path_text}
use outbox_service.Metrics.Schema.{
  string_type, number_type, SchemaNode, object_node, array_node, scalar_node, no_properties, child,
  build_schema_graph, ResolvedPath, resolve_path, find_child,
}
use outbox_service.Metrics.Yaml.{index, along, ValidatedMetricYaml, validate_metric_yaml}
use outbox_service.Metrics.Extractor as Extractor
use outbox_service.Metrics.Extractor.{Numbers}
use outbox_service.Metrics.Conforms.{WalksPaths, walk}

path_is_parsed :
    parse_json_path "$.items[*].price"
    ≡ ok (root ∷ property "items" ∷ array_each ∷ property "price" ∷ [])
unfolding parse_json_path is_empty has_bracket
path_is_parsed = refl

index_is_refused : parse_json_path "$.items[0].price" ≡ err unsupported_bracket
unfolding parse_json_path is_empty has_bracket
index_is_refused = refl

-- what the message of that error says is not accepted
index_before_wildcard_is_accepted :
    parse_json_path "$.items[0][*]" ≡ ok (root ∷ property "items[0]" ∷ array_each ∷ [])
unfolding parse_json_path is_empty
index_before_wildcard_is_accepted = refl

abbrev pub order_schema : Json
order_schema = object (
    field "type" (text "object") (
      field "properties"
        (object (
          field "items"
            (object (
              field "type" (text "array") (
                field "items"
                  (object (
                    field "type" (text "object") (
                      field "properties"
                        (object (
                          field "price"
                            (object (
                              field "type"
                                (array (item (text "number") (item (text "null") end_items)))
                                end_fields))
                            (field "kind" (object (field "type" (text "string") end_fields))
                              end_fields)))
                        (field "required"
                          (array (item (text "price") (item (text "kind") end_items)))
                          end_fields))))
                  end_fields)))
            end_fields))
        (field "required" (array (item (text "items") end_items)) end_fields)))

abbrev pub item_node : SchemaNode
item_node =
    object_node false
      (child "price" (scalar_node number_type true)
        (child "kind" (scalar_node string_type false) no_properties))
      ("price" ∷ "kind" ∷ [])

abbrev pub order_node : SchemaNode
order_node =
    object_node false (child "items" (array_node false item_node) no_properties) ("items" ∷ [])

pub schema_is_built : build_schema_graph order_schema ≡ ok order_node
unfolding build_schema_graph get
schema_is_built = refl

abbrev pub revenue_yaml : Json
revenue_yaml = object (
    field "version" (text "1.0") (
      field "observations"
        (array (
          item
            (object (
              field "code" (text "revenue") (
                field "value_path" (text "$.items[*].price") (
                  field "labels"
                    (object (
                      field "place" (text "$index")
                        (field "kind" (text "$.items[*].kind") end_fields)))
                    end_fields))))
            end_items))
        end_fields))

abbrev pub price_path : ResolvedPath
price_path = record {
  path = "$.items[*].price";
  json_type = number_type;
  iterator_path = some "$.items[*]";
  required = true;
  nullable = true;
}

abbrev pub kind_path : ResolvedPath
kind_path = record price_path {
  path = "$.items[*].kind";
  json_type = string_type;
  nullable = false;
}

abbrev pub revenue : ValidatedMetricYaml
revenue = record {
  version = "1.0";
  observations =
      record {
        code = "revenue";
        transform = "identity";
        value_path = price_path;
        labels = ("place", index) ∷ ("kind", along kind_path) ∷ [];
      }
      ∷ [];
}

pub yaml_is_valid : validate_metric_yaml revenue_yaml order_schema ≡ ok revenue
unfolding validate_metric_yaml build_schema_graph is_empty resolve_path parse_json_path has_bracket
    find_child is_business_label_name
yaml_is_valid = refl

-- JSONPath as it is relied on
abbrev pub walk_parsed : Result JsonPathError (List JsonPathToken) → Json → Option (List Json)
walk_parsed (ok (root ∷ tokens)) payload = some (walk tokens payload)
walk_parsed _ payload = none

abbrev pub walker : String → Json → Option (List Json)
walker path payload = walk_parsed (parse_json_path path) payload

pub walker-WalksPaths : (node : SchemaNode) → WalksPaths node walker
walker-WalksPaths node path tokens payload ms parses plain resolves conforms finds =
    let same : some (walk tokens payload) ≡ some ms = rw parses at finds in cc

abbrev pub whole_numbers : Floats ℕ
whole_numbers = record {
  zero_value = 0;
  is_finite = λ n. true;
  is_negative = λ n. false;
  is_zero = λ n. n == 0;
  le = leb;
  fsum = λ ns. some (sum_of (λ n. n) ns);
  db_plus = λ n m. some (n + m);
}

-- every literal counts as its length
abbrev pub by_length : Numbers ℕ
by_length = record { float_of = λ n. some (char_count n); float_of_count = λ n. n }

abbrev pub order_of : Json → Json
order_of items = object (field "items" items end_fields)

abbrev pub item_of : Json → String → Json
item_of price kind = object (field "price" price (field "kind" (text kind) end_fields))

abbrev pub empty_order : Json
empty_order = order_of (array end_items)

abbrev pub two_items : Json
two_items =
    order_of
      (array (item (item_of (number "12") "book") (item (item_of (number "100") "pen") end_items)))

abbrev pub first_item_free : Json
first_item_free =
    order_of (array (item (item_of null "book") (item (item_of (number "100") "pen") end_items)))

parse_json_path-path_text_example :
    parse_json_path "$.items[*].price"
    ≡ ok (root ∷ property "items" ∷ array_each ∷ property "price" ∷ [])
unfolding is_empty has_bracket
parse_json_path-path_text_example =
    parse_json_path-path_text (record { name = "items"; each = true })
      (record { name = "price"; each = false } ∷ []) (refl, refl, refl) ((refl, refl, refl), tt)
