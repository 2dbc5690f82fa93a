-- ===== src/Metrics/Typed.antt =====
-- The types of the values that JSONPath finds along a path that was resolved.
use outbox_service.Prelude.{
  ◌≡◌, refl, Bool, true, ◌&&◌, ◌||◌, Option, some, List, ◌∷◌, String, Result, ok, err, ◌>>=◌,
  raise_if, all_of, any_of, is_empty, All, All-map, OnOk, OnOk-bind, OnOk-eq, arith, inl, inr,
  Bool-cases, subst, ap, ◌∙◌,
}
use package.text.Mathlib.Text.{starts_with}
use outbox_service.Json.{Json, null, array, object}
use outbox_service.Metrics.Paths.{
  JsonPathToken, root, JsonPathError, empty_part, parse_json_path, tokens_of, split_dots,
  after_root,
}
use outbox_service.Metrics.Schema.{
  SchemaNode, object_node, array_node, scalar_node, node_type, is_nullable, ResolvedPath, Place,
  resolved, resolve_tokens, start_place, parsed, after_first, resolve_path,
}
use outbox_service.Metrics.Extractor.{is_null}
use outbox_service.Metrics.Conforms.{
  has_type, Conforms, WalksPaths, is_plain, walk, IsStrict, resolve_tokens-Leads,
  resolve_tokens-IsStrict,
}

-- the names of the path are plain
abbrev pub IsPlainPath : String → Type 0
IsPlainPath path = OnOk (λ ts. all_of is_plain ts ≡ true) (parse_json_path path)

-- null where the path is nullable, or a value of the path's type
abbrev pub fits : ResolvedPath → Json → Bool
fits r v = is_null v && r.nullable || has_type r.json_type v

-- the path was parsed, and resolved from the root
abbrev pub IsResolved : SchemaNode → ResolvedPath → Type 0
IsResolved node r =
    (tokens : List JsonPathToken) × (p : Place) × (parse_json_path r.path ≡ ok (root ∷ tokens))
    × (resolve_tokens tokens (start_place node) ≡ ok p)
    × (r ≡ resolved r.path p)

parse_json_path-root :
    (path : String)
    → OnOk (λ ts. (rest : List JsonPathToken) × (ts ≡ root ∷ rest)) (parse_json_path path)
unfolding parse_json_path
parse_json_path-root path =
    let R : List JsonPathToken → Type 0 = λ ts. (rest : List JsonPathToken) × (ts ≡ root ∷ rest) in
    elim (Bool-cases (starts_with path "$.")) [
      | inr other ↦ rw other tt
      | inl rooted ↦ rw rooted (
          OnOk-bind R (raise_if (any_of is_empty (split_dots (after_root path))) empty_part) _
            (λ _ _.
              OnOk-bind R (tokens_of (split_dots (after_root path))) _
                (λ tokens _. (tokens, refl))))
    ]

parsed-ok : {A : Type 0} (r : Result JsonPathError A) {a : A} → parsed r ≡ ok a → r ≡ ok a
unfolding parsed
parsed-ok (ok b) h = cc
parsed-ok (err e) h = cc

resolved_from :
    (node : SchemaNode) (path : String) (tokens : List JsonPathToken)
    → parse_json_path path ≡ ok (root ∷ tokens)
    → OnOk
        (λ r. IsResolved node r × (r.path ≡ path))
        (resolve_tokens tokens (start_place node) >>= λ p. ok (resolved path p))
resolved_from node path tokens parses =
    let R : ResolvedPath → Type 0 = λ r. IsResolved node r × (r.path ≡ path) in
    OnOk-bind R (resolve_tokens tokens (start_place node)) _
      (λ p reached. ((tokens, p, parses, reached, refl), refl))

pub resolve_path-IsResolved :
    (node : SchemaNode) (path : String)
    → OnOk (λ r. IsResolved node r × (r.path ≡ path)) (resolve_path node path)
unfolding resolve_path after_first
resolve_path-IsResolved node path =
    let R : ResolvedPath → Type 0 = λ r. IsResolved node r × (r.path ≡ path) in
    OnOk-bind R (parsed (parse_json_path path)) _ (λ tokens made.
      let parses = parsed-ok (parse_json_path path) made in
      let (rest, e) : (rest : List JsonPathToken) × (tokens ≡ root ∷ rest) =
        OnOk-eq (λ ts. (rest : List JsonPathToken) × (ts ≡ root ∷ rest)) (parse_json_path path)
          (parse_json_path-root path) parses in
      rw e (resolved_from node path rest (parses ∙ ap (λ ts. ok ts) e)))

Conforms-fits :
    (node : SchemaNode) (v : Json)
    → Conforms node v
    → (is_null v && is_nullable node || has_type (node_type node) v) ≡ true
unfolding Conforms is_null is_nullable node_type
Conforms-fits (object_node n _ _) (object _) h = refl
Conforms-fits (object_node n _ _) null h = ground arith
Conforms-fits (object_node n _ _) _ h = absurd h
Conforms-fits (array_node n _) (array _) h = refl
Conforms-fits (array_node n _) null h = ground arith
Conforms-fits (array_node n _) _ h = absurd h
Conforms-fits (scalar_node t n) null h = h
Conforms-fits (scalar_node t n) _ h = h

place_fits :
    (path : String) (p : Place) (v : Json)
    → IsStrict p
    → Conforms p.node v
    → fits (resolved path p) v ≡ true
place_fits path p v strict h = ground (arith, Conforms-fits p.node v h)

-- Every value that JSONPath finds along a resolved path of plain names, in a document that fits the
-- schema, is of the path's type, or null where the path is nullable.
pub resolve_path-IsTyped :
    (node : SchemaNode) (path : String) (find : String → Json → Option (List Json)) (payload : Json)
    (r : ResolvedPath) (ms : List Json)
    → WalksPaths node find
    → Conforms node payload
    → IsPlainPath path
    → resolve_path node path ≡ ok r
    → find path payload ≡ some ms
    → All (λ v. fits r v ≡ true) ms
resolve_path-IsTyped node path find payload r ms walks conforms plain resolves finds =
    let ((tokens, p, parses, reached, e), same) : IsResolved node r × (r.path ≡ path) =
      OnOk-eq (λ r. IsResolved node r × (r.path ≡ path)) (resolve_path node path)
        (resolve_path-IsResolved node path) resolves in
    let parses' : parse_json_path path ≡ ok (root ∷ tokens) =
      subst (λ q. parse_json_path q ≡ ok (root ∷ tokens)) same parses in
    let strict =
      OnOk-eq IsStrict (resolve_tokens tokens (start_place node))
        (resolve_tokens-IsStrict tokens (start_place node) (λ h. h)) reached in
    let leads =
      OnOk-eq (λ p. All (Conforms p.node) (walk tokens payload))
        (resolve_tokens tokens (start_place node))
        (resolve_tokens-Leads tokens (start_place node) payload conforms) reached in
    let walked : ms ≡ walk tokens payload =
      walks path tokens payload ms parses'
        (OnOk-eq (λ ts. all_of is_plain ts ≡ true) (parse_json_path path) plain parses')
        (p, reached) conforms finds in
    rw (walked, e) (All-map (λ v h. place_fits r.path p v strict h) (walk tokens payload) leads)
