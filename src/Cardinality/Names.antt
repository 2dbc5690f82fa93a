-- ===== src/Cardinality/Names.antt =====
-- The names of app/metrics_engine/prometheus_renderer.py.
use outbox_service.Prelude.{
  ℕ, Bool, true, false, not, ◌&&◌, ◌||◌, String, ◌==◌, leb, if◌then◌else◌, is_empty,
}
use text.Mathlib.Text.{starts_with}
use Prim.Native.Char.{Char, code}
use Prim.Native.String.{◌++◌ as concat}

abbrev is_letter : ℕ → Bool
is_letter c = leb 65 c && leb c 90 || leb 97 c && leb c 122

abbrev is_digit : ℕ → Bool
is_digit c = leb 48 c && leb c 57

-- `[a-zA-Z0-9_]`
abbrev is_word : Char → Bool
is_word c = is_letter (code c) || is_digit (code c) || code c == 95

-- the substitution of `_` for the invalid characters
unfoldable pub substitute : String → String
substitute String.[] = ""
substitute (String.◌∷◌ c s) =
    let rest = substitute s in
    if is_word c || code c == 58 then String.◌∷◌ c rest else concat "_" rest

-- `normalize_prometheus_metric_name`
unfoldable pub normalize_prometheus_metric_name : String → String
normalize_prometheus_metric_name metric_code =
    let normalized = substitute metric_code in
    if starts_with normalized "ob1_" then normalized else concat "ob1_" normalized

every_word : String → Bool
every_word String.[] = true
every_word (String.◌∷◌ c s) = is_word c && every_word s

-- `_LABEL_NAME.fullmatch`
unfoldable pub is_label_name : String → Bool
unfolding every_word
is_label_name String.[] = false
is_label_name (String.◌∷◌ c s) = is_word c && not (is_digit (code c)) && every_word s

-- `validate_prometheus_business_label_name` of a `str`: whether it does not raise
unfoldable pub is_business_label_name : String → Bool
unfolding is_label_name
is_business_label_name name =
    not (is_empty name) && not (starts_with name "ob1_") && is_label_name name
