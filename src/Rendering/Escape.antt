-- ===== src/Rendering/Escape.antt =====
-- `escape_prometheus_label_value` of app/metrics_engine/prometheus_renderer.py.
use outbox_service.Prelude.{
  ℕ, ◌≡◌, refl, sym, ap, ◌∙◌, String, if◌then◌else◌, ◌==◌, inl, inr, Bool-cases,
}
use Prim.Native.Char.{code}
use Prim.Native.String.{◌++◌ as concat}
use Prim.Native.String.append
use text.Mathlib.TextLemmas.{append_assoc}

-- `s.replace(c, rep)` for one character, given by its code point
unfoldable pub replace_char : ℕ → String → String → String
replace_char k rep String.[] = ""
replace_char k rep (String.◌∷◌ c s) =
    let rest = replace_char k rep s in if code c == k then concat rep rest else String.◌∷◌ c rest

unfoldable pub escape_prometheus_label_value : String → String
unfolding replace_char
escape_prometheus_label_value value =
    replace_char 34 "\\\"" (replace_char 10 "\\n" (replace_char 92 "\\\\" value))

replace_char-concat :
    (k : ℕ) (rep s t : String)
    → replace_char k rep (concat s t) ≡ concat (replace_char k rep s) (replace_char k rep t)
unfolding replace_char
replace_char-concat k rep String.[] t =
    ap (replace_char k rep) (append.nil t) ∙ sym (append.nil (replace_char k rep t))
replace_char-concat k rep (String.◌∷◌ c s) t =
    ap (replace_char k rep) (append.cons c s t) ∙ elim (Bool-cases (code c == k)) [
      | inl hit ↦ rw hit (
          ap (concat rep) (replace_char-concat k rep s t)
          ∙ sym (append_assoc rep (replace_char k rep s) (replace_char k rep t)))
      | inr miss ↦ rw miss (
          ap (λ r. String.◌∷◌ c r) (replace_char-concat k rep s t)
          ∙ sym (append.cons c (replace_char k rep s) (replace_char k rep t)))
    ]

-- one character at a time, as the text format 0.0.4 says
abbrev pub escape_each : String → String
escape_each String.[] = ""
escape_each (String.◌∷◌ c s) =
    let rest = escape_each s in
    if code c == 92
    then concat "\\\\" rest
    else if code c == 10
    then concat "\\n" rest
    else if code c == 34
    then concat "\\\"" rest
    else String.◌∷◌ c rest

step_slash :
    (t : String)
    → replace_char 34 "\\\"" (replace_char 10 "\\n" (concat "\\\\" t))
      ≡ concat "\\\\" (replace_char 34 "\\\"" (replace_char 10 "\\n" t))
unfolding replace_char
step_slash t =
    ap (replace_char 34 "\\\"") (replace_char-concat 10 "\\n" "\\\\" t)
    ∙ replace_char-concat 34 "\\\"" "\\\\" (replace_char 10 "\\n" t)

step_newline :
    (t : String) → replace_char 34 "\\\"" (concat "\\n" t) ≡ concat "\\n" (replace_char 34 "\\\"" t)
unfolding replace_char
step_newline t = replace_char-concat 34 "\\\"" "\\n" t

-- The three replacements, one after the other, are the escaping of one character at a time.
pub escape_prometheus_label_value_lem :
    (s : String) → escape_prometheus_label_value s ≡ escape_each s
unfolding escape_prometheus_label_value replace_char
escape_prometheus_label_value_lem String.[] = refl
escape_prometheus_label_value_lem (String.◌∷◌ c s) =
    let ih = escape_prometheus_label_value_lem s in
    let r = replace_char 92 "\\\\" s in
    elim (Bool-cases (code c == 92)) [
      | inl slash ↦ rw slash (step_slash r ∙ ap (concat "\\\\") ih)
      | inr no_slash ↦ elim (Bool-cases (code c == 10)) [
        | inl line ↦
            rw (no_slash, line) (step_newline (replace_char 10 "\\n" r) ∙ ap (concat "\\n") ih)
        | inr no_line ↦ elim (Bool-cases (code c == 34)) [
          | inl quote ↦ rw (no_slash, no_line, quote) (ap (concat "\\\"") ih)
          | inr no_quote ↦ rw (no_slash, no_line, no_quote) (ap (λ t. String.◌∷◌ c t) ih)
        ]
      ]
    ]
