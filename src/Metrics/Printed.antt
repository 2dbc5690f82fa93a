-- ===== src/Metrics/Printed.antt =====
-- Paths as texts, and back.
use outbox_service.Prelude.{
  ℕ, ◌≡◌, refl, sym, ap, ◌∙◌, Bool, true, false, not, ◌&&◌, none, some, List, [], ◌∷◌, ◌++◌, String,
  ok, if◌then◌else◌, ◌==◌, str_eq, eq_iff, any_of, is_empty, All, arith, inl, inr, Bool-cases,
}
use text.Mathlib.TextPositions.{starts_with-append}
use Prim.Native.Char.{char, code}
use Prim.Native.String.{◌++◌ as concat}
use Prim.Native.String.append
use outbox_service.Metrics.Paths.{
  JsonPathToken, root, array_each, property, longer, split_dots, without_wildcard, has_bracket,
  tokens_of_part, tokens_of, after_root, parse_json_path,
}

-- a property, and whether the path goes on with each of its items
pub record Segment : Type 0 where
  pub name : String
  pub each : Bool

abbrev part_text : Segment → String
part_text s = if s.each then concat s.name "[*]" else s.name

abbrev joined : List Segment → String
joined [] = ""
joined (s ∷ []) = part_text s
joined (s ∷ t ∷ ss) = concat (part_text s) (concat "." (joined (t ∷ ss)))

abbrev pub path_text : List Segment → String
path_text segments = concat "$." (joined segments)

abbrev segment_tokens : Segment → List JsonPathToken
segment_tokens s = if s.each then property s.name ∷ array_each ∷ [] else property s.name ∷ []

abbrev pub path_tokens : List Segment → List JsonPathToken
path_tokens [] = []
path_tokens (s ∷ ss) = segment_tokens s ++ path_tokens ss

abbrev pub no_dot : String → Bool
no_dot String.[] = true
no_dot (String.◌∷◌ c s) = not (code c == 46) && no_dot s

-- a name that is not empty, without dots and brackets
abbrev pub IsName : String → Type 0
IsName name = (is_empty name ≡ false) × (no_dot name ≡ true) × (has_bracket name ≡ false)

split_dots-last : (p : String) → no_dot p ≡ true → split_dots p ≡ p ∷ []
unfolding split_dots longer
split_dots-last String.[] h = refl
split_dots-last (String.◌∷◌ c p) h = elim (Bool-cases (code c == 46)) [
  | inl dot ↦ absurd (ground (arith, dot, h))
  | inr other ↦ rw (other, split_dots-last p (rw other at h)) refl
]

split_dots-next :
    (p s : String) → no_dot p ≡ true → split_dots (concat p (concat "." s)) ≡ p ∷ split_dots s
unfolding split_dots longer
split_dots-next String.[] s h =
    ap split_dots (append.nil (concat "." s) ∙ append.cons (char 46 tt) "" s)
    ∙ ap (λ t. "" ∷ split_dots t) (append.nil s)
split_dots-next (String.◌∷◌ c p) s h = elim (Bool-cases (code c == 46)) [
  | inl dot ↦ absurd (ground (arith, dot, h))
  | inr other ↦
      ap split_dots (append.cons c p (concat "." s))
      ∙ rw (other, split_dots-next p s (rw other at h)) refl
]

no_dot-wildcard : (name : String) → no_dot name ≡ true → no_dot (concat name "[*]") ≡ true
no_dot-wildcard String.[] h = ap no_dot (append.nil "[*]")
no_dot-wildcard (String.◌∷◌ c s) h =
    ap no_dot (append.cons c s "[*]") ∙ ground (arith, no_dot-wildcard s, h)

no_wildcard : (name : String) → has_bracket name ≡ false → without_wildcard name ≡ none
unfolding has_bracket without_wildcard
no_wildcard String.[] h = refl
no_wildcard (String.◌∷◌ c s) h = elim (Bool-cases (str_eq (String.◌∷◌ c s) "[*]")) [
  | inl same ↦
      let e : String.◌∷◌ c s ≡ "[*]" = (eq_iff (String.◌∷◌ c s) "[*]").0 same in
      let bad : true ≡ false = sym (ap has_bracket e) ∙ h in cc
  | inr other ↦ rw (other, no_wildcard s (ground (arith, h))) refl
]

first_code : String → ℕ
first_code String.[] = 0
first_code (String.◌∷◌ c s) = code c

wildcard_lem :
    (name : String) → has_bracket name ≡ false → without_wildcard (concat name "[*]") ≡ some name
unfolding has_bracket without_wildcard first_code
wildcard_lem String.[] h = ap without_wildcard (append.nil "[*]")
wildcard_lem (String.◌∷◌ c s) h =
    let longer_text = String.◌∷◌ c (concat s "[*]") in
    ap without_wildcard (append.cons c s "[*]") ∙ elim (Bool-cases (str_eq longer_text "[*]")) [
      | inl same ↦
          let e : code c ≡ 91 = ap first_code ((eq_iff longer_text "[*]").0 same) in
          absurd (ground (arith, e, h))
      | inr other ↦ rw (other, wildcard_lem s (ground (arith, h))) refl
    ]

-- what the parser needs of a part
record IsPart (s : Segment) : Type 0 where
  no_dots : no_dot (part_text s) ≡ true
  not_empty : is_empty (part_text s) ≡ false
  tokens : tokens_of_part (part_text s) (without_wildcard (part_text s)) ≡ ok (segment_tokens s)

concat_filled : (s t : String) → is_empty s ≡ false → is_empty (concat s t) ≡ false
unfolding is_empty
concat_filled String.[] t h = cc
concat_filled (String.◌∷◌ c s) t h = ap is_empty (append.cons c s t)

name-IsPart :
    (name : String) (each : Bool) → IsName name → IsPart (record { name = name; each = each })
unfolding tokens_of_part
name-IsPart name false (filled, dots, brackets) = record {
  no_dots = dots;
  not_empty = filled;
  tokens = rw (no_wildcard name brackets, brackets) refl;
}
name-IsPart name true (filled, dots, brackets) = record {
  no_dots = no_dot-wildcard name dots;
  not_empty = concat_filled name "[*]" filled;
  tokens = rw (wildcard_lem name brackets, filled) refl;
}

abbrev parts_of : Segment → List Segment → List String
parts_of s [] = part_text s ∷ []
parts_of s (t ∷ ss) = part_text s ∷ parts_of t ss

abbrev AreNames : List Segment → Type 0
AreNames = All (λ s. IsName s.name)

split_dots-joined :
    (s : Segment) (ss : List Segment)
    → AreNames (s ∷ ss)
    → split_dots (joined (s ∷ ss)) ≡ parts_of s ss
split_dots-joined s [] h = split_dots-last (part_text s) (name-IsPart s.name s.each h.0).no_dots
split_dots-joined s (t ∷ ss) h =
    split_dots-next (part_text s) (joined (t ∷ ss)) (name-IsPart s.name s.each h.0).no_dots
    ∙ ap (λ ps. part_text s ∷ ps) (split_dots-joined t ss h.1)

no_empty_part :
    (s : Segment) (ss : List Segment) → AreNames (s ∷ ss) → any_of is_empty (parts_of s ss) ≡ false
no_empty_part s [] h = rw (name-IsPart s.name s.each h.0).not_empty refl
no_empty_part s (t ∷ ss) h = rw (name-IsPart s.name s.each h.0).not_empty (no_empty_part t ss h.1)

tokens_of-parts :
    (s : Segment) (ss : List Segment)
    → AreNames (s ∷ ss)
    → tokens_of (parts_of s ss) ≡ ok (path_tokens (s ∷ ss))
unfolding tokens_of
tokens_of-parts s [] h = rw (name-IsPart s.name s.each h.0).tokens refl
tokens_of-parts s (t ∷ ss) h =
    rw ((name-IsPart s.name s.each h.0).tokens, tokens_of-parts t ss h.1) refl

after_root_lem : (s : String) → after_root (concat "$." s) ≡ s
unfolding after_root
after_root_lem s =
    ap after_root (
      append.cons (char 36 tt) "." s
      ∙ ap (λ t. String.◌∷◌ (char 36 tt) t) (append.cons (char 46 tt) "" s))
    ∙ append.nil s

-- The text of a path of at least one property, whose names are not empty and have no dot and no
-- bracket, is parsed to the tokens of that path.
pub parse_json_path-path_text :
    (s : Segment) (ss : List Segment)
    → IsName s.name
    → All (λ t. IsName t.name) ss
    → parse_json_path (path_text (s ∷ ss)) ≡ ok (root ∷ path_tokens (s ∷ ss))
unfolding parse_json_path
parse_json_path-path_text s ss first others =
    rw
      (
        starts_with-append "$." (joined (s ∷ ss)),
        after_root_lem (joined (s ∷ ss)),
        split_dots-joined s ss (first, others),
        no_empty_part s ss (first, others),
        tokens_of-parts s ss (first, others),
      )
      refl
