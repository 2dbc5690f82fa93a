-- ===== src/Metrics/Paths.antt =====
-- app/metrics_engine/json_path.py.
use outbox_service.Prelude.{
  Bool, false, ◌||◌, Option, none, some, List, [], ◌∷◌, ◌++◌, String, Result, ok, err, ◌>>=◌, ◌>>◌,
  raise_if, if◌then◌else◌, ◌==◌, str_eq, any_of, is_empty,
}
use text.Mathlib.Text.{starts_with}
use mathlib.Core.Option
use Prim.Native.Char.{Char, code}

pub data JsonPathToken : Type 0 where
  root array_each : JsonPathToken
  property : String → JsonPathToken

pub data JsonPathError : Type 0 where
  no_root empty_part no_property_name unsupported_bracket : JsonPathError

-- a character before the first part
unfoldable pub longer : Char → List String → List String
longer c [] = []
longer c (part ∷ parts) = String.◌∷◌ c part ∷ parts

-- `s.split(".")`
unfoldable pub split_dots : String → List String
unfolding longer
split_dots String.[] = "" ∷ []
split_dots (String.◌∷◌ c s) =
    let parts = split_dots s in if code c == 46 then "" ∷ parts else longer c parts

-- `part[:-3]`, if `part.endswith("[*]")`
unfoldable pub without_wildcard : String → Option String
without_wildcard String.[] = none
without_wildcard (String.◌∷◌ c s) =
    if str_eq (String.◌∷◌ c s) "[*]"
    then some ""
    else Option.map (λ t. String.◌∷◌ c t) (without_wildcard s)

-- `"[" in part or "]" in part`
unfoldable pub has_bracket : String → Bool
has_bracket String.[] = false
has_bracket (String.◌∷◌ c s) = code c == 91 || code c == 93 || has_bracket s

-- what one part adds to the tokens
unfoldable pub tokens_of_part : String → Option String → Result JsonPathError (List JsonPathToken)
tokens_of_part part (some name) =
    if is_empty name then err no_property_name else ok (property name ∷ array_each ∷ [])
tokens_of_part part none =
    if has_bracket part then err unsupported_bracket else ok (property part ∷ [])

-- the loop over the parts
unfoldable pub tokens_of : List String → Result JsonPathError (List JsonPathToken)
unfolding without_wildcard tokens_of_part
tokens_of [] = ok []
tokens_of (part ∷ parts) = tokens_of_part part (without_wildcard part) >>= λ first.
    tokens_of parts >>= λ rest. ok (first ++ rest)

-- `path[2:]`
unfoldable pub after_root : String → String
after_root (String.◌∷◌ _ (String.◌∷◌ _ s)) = s
after_root _ = ""

unfoldable pub parse_json_path : String → Result JsonPathError (List JsonPathToken)
unfolding split_dots tokens_of after_root
parse_json_path path =
    if starts_with path "$."
    then raise_if (any_of is_empty (split_dots (after_root path))) empty_part
      >> (tokens_of (split_dots (after_root path)) >>= λ tokens. ok (root ∷ tokens))
    else err no_root
