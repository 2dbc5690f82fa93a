-- ===== src/Metrics/Plain.antt =====
-- The paths of a regular schema: they are of plain names, and find null only where they are nullable.
use outbox_service.Prelude.{
  ◌≡◌, refl, ap, ◌∙◌, true, false, not, ◌&&◌, ◌||◌, Option, some, List, [], ◌∷◌, String, ok, str_eq,
  eq_iff, all_of, any_of, All, OnOk, OnOk-bind, OnOk-eq, OnOk-intro, arith, inl, inr, Bool-cases,
  Option-cases,
}
use outbox_service.Json.{Json, null}
use outbox_service.Cardinality.Names.{is_label_name}
use outbox_service.Metrics.Paths.{JsonPathToken, root, array_each, property}
use outbox_service.Metrics.Schema.{
  SchemaNode, object_node, array_node, scalar_node, Properties, no_properties, child, Place,
  is_nullable, find_child, resolve_property, resolve_array_each, resolve_token, resolve_tokens,
  start_place, ResolvedPath, resolve_path,
}
use outbox_service.Metrics.Extractor.{is_null}
use outbox_service.Metrics.Conforms.{
  is_plain, has_type, Conforms, WalksPaths, walk, IsStrict, resolve_tokens-Leads,
  resolve_tokens-IsStrict,
}
use outbox_service.Metrics.Typed.{IsPlainPath, IsResolved, resolve_path-IsResolved}

unfoldable mutual
  -- the names of all properties are plain, and a scalar that null fits is marked nullable
  pub IsRegular : SchemaNode → Type 0
  IsRegular (object_node n ps required) = AreRegular ps
  IsRegular (array_node n node) = IsRegular node
  IsRegular (scalar_node t n) = (n || not (has_type t null)) ≡ true

  pub AreRegular : Properties → Type 0
  AreRegular no_properties = Unit
  AreRegular (child name node ps) = (is_label_name name ≡ true) × IsRegular node × AreRegular ps

find_child-IsRegular :
    (name : String) (ps : Properties) (node : SchemaNode)
    → AreRegular ps
    → find_child name ps ≡ some node
    → (is_label_name name ≡ true) × IsRegular node
unfolding find_child AreRegular
find_child-IsRegular name no_properties node plain found = cc
find_child-IsRegular name (child k here ps) node (named, below, plain) found =
    elim (Bool-cases (str_eq name k)) [
      | inl hit ↦
          let same : name ≡ k = (eq_iff name k).0 hit in
          let taken : some here ≡ some node = rw hit at found in
          let there : here ≡ node = cc in rw (same, ← there) (named, below)
      | inr miss ↦ find_child-IsRegular name ps node plain (rw miss at found)
    ]

-- the token is plain, and the place that it leads to has plain names
abbrev Goes : JsonPathToken → Place → Type 0
Goes t p = (is_plain t ≡ true) × IsRegular p.node

resolve_property-Goes :
    (node : SchemaNode) (name : String) (p : Place)
    → IsRegular node
    → OnOk (Goes (property name)) (resolve_property node name p)
unfolding resolve_property IsRegular
resolve_property-Goes (array_node n node) name p plain = tt
resolve_property-Goes (scalar_node t n) name p plain = tt
resolve_property-Goes (object_node n ps required) name p plain =
    elim (Option-cases (find_child name ps)) [
      | inl absent ↦ simp (absent, resolve_property) tt
      | inr (node, found) ↦
          simp (found, resolve_property) (find_child-IsRegular name ps node plain found)
    ]

resolve_array_each-Goes :
    (node : SchemaNode) (p : Place)
    → IsRegular node
    → OnOk (Goes array_each) (resolve_array_each node p)
unfolding resolve_array_each IsRegular
resolve_array_each-Goes (array_node n node) p plain = (refl, plain)
resolve_array_each-Goes (object_node _ _ _) p plain = tt
resolve_array_each-Goes (scalar_node _ _) p plain = tt

resolve_token-Goes :
    (t : JsonPathToken) (p : Place) → IsRegular p.node → OnOk (Goes t) (resolve_token t p)
unfolding resolve_token
resolve_token-Goes root p plain = tt
resolve_token-Goes (property name) p plain = resolve_property-Goes p.node name p plain
resolve_token-Goes array_each p plain = resolve_array_each-Goes p.node p plain

resolve_tokens-IsRegular :
    (ts : List JsonPathToken) (p : Place)
    → IsRegular p.node
    → OnOk (λ q. (all_of is_plain ts ≡ true) × IsRegular q.node) (resolve_tokens ts p)
unfolding resolve_tokens
resolve_tokens-IsRegular [] p regular = (refl, regular)
resolve_tokens-IsRegular (t ∷ ts) p regular =
    let R : Place → Type 0 = λ q. (all_of is_plain (t ∷ ts) ≡ true) × IsRegular q.node in
    OnOk-bind R (resolve_token t p) (resolve_tokens ts) (λ q stepped.
      let (here, there) =
        OnOk-eq (Goes t) (resolve_token t p) (resolve_token-Goes t p regular) stepped in
      OnOk-intro R (resolve_tokens ts q) (λ z reached.
        let (rest, last) =
          OnOk-eq (λ z. (all_of is_plain ts ≡ true) × IsRegular z.node) (resolve_tokens ts q)
            (resolve_tokens-IsRegular ts q there) reached in
        (ground (arith, here, rest), last)))

pub resolve_path-IsPlainPath :
    (node : SchemaNode) (path : String) (r : ResolvedPath)
    → IsRegular node
    → resolve_path node path ≡ ok r
    → IsPlainPath r.path
resolve_path-IsPlainPath node path r regular resolves =
    let ((tokens, p, parses, reached, _), _) =
      OnOk-eq (λ r. IsResolved node r × (r.path ≡ path)) (resolve_path node path)
        (resolve_path-IsResolved node path) resolves in
    let (plain, _) =
      OnOk-eq (λ q. (all_of is_plain tokens ≡ true) × IsRegular q.node)
        (resolve_tokens tokens (start_place node))
        (resolve_tokens-IsRegular tokens (start_place node) regular) reached in
    rw parses plain

null_nullable :
    (node : SchemaNode) (v : Json)
    → IsRegular node
    → Conforms node v
    → is_null v ≡ true
    → is_nullable node ≡ true
unfolding IsRegular Conforms is_nullable is_null
null_nullable (object_node n ps required) null regular fit h = fit
null_nullable (object_node n ps required) _ regular fit h = cc
null_nullable (array_node n node) null regular fit h = fit
null_nullable (array_node n node) _ regular fit h = cc
null_nullable (scalar_node t n) null regular fit h = ground (arith, regular, fit)
null_nullable (scalar_node t n) _ regular fit h = cc

strict_not_null :
    (node : SchemaNode) (vs : List Json)
    → IsRegular node
    → is_nullable node ≡ false
    → All (Conforms node) vs
    → any_of is_null vs ≡ false
strict_not_null node [] regular strict fit = refl
strict_not_null node (v ∷ vs) regular strict (here, fit) = elim (Bool-cases (is_null v)) [
  | inl absent ↦ absurd (ground (arith, strict, null_nullable node v regular here absent))
  | inr present ↦ ground (arith, present, strict_not_null node vs regular strict fit)
]

-- What JSONPath finds along a resolved path holds null only if the path is nullable.
pub resolve_path-allowed :
    (node : SchemaNode) (find : String → Json → Option (List Json)) (payload : Json)
    (r : ResolvedPath) (ms : List Json)
    → IsRegular node
    → WalksPaths node find
    → Conforms node payload
    → resolve_path node r.path ≡ ok r
    → find r.path payload ≡ some ms
    → not (any_of is_null ms && not r.nullable) ≡ true
resolve_path-allowed node find payload r ms regular walks conforms resolves finds =
    let ((tokens, p, parses, reached, same), _) =
      OnOk-eq (λ q. IsResolved node q × (q.path ≡ r.path)) (resolve_path node r.path)
        (resolve_path-IsResolved node r.path) resolves in
    let (plain, last) =
      OnOk-eq (λ q. (all_of is_plain tokens ≡ true) × IsRegular q.node)
        (resolve_tokens tokens (start_place node))
        (resolve_tokens-IsRegular tokens (start_place node) regular) reached in
    let strict =
      OnOk-eq IsStrict (resolve_tokens tokens (start_place node))
        (resolve_tokens-IsStrict tokens (start_place node) (λ h. h)) reached in
    let leads =
      OnOk-eq (λ p. All (Conforms p.node) (walk tokens payload))
        (resolve_tokens tokens (start_place node))
        (resolve_tokens-Leads tokens (start_place node) payload conforms) reached in
    let walked : ms ≡ walk tokens payload =
      walks r.path tokens payload ms parses plain (p, reached) conforms finds in
    let nullable : r.nullable ≡ p.nullable = ap (λ (q : ResolvedPath). q.nullable) same in
    elim (Bool-cases p.nullable) [
      | inl allowed ↦ ground (arith, nullable, allowed)
      | inr refused ↦
          let none_null : any_of is_null ms ≡ false =
            ap (any_of is_null) walked
            ∙ strict_not_null p.node (walk tokens payload) last (strict refused) leads in
          ground (arith, none_null)
    ]
