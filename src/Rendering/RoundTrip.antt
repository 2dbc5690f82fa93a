-- ===== src/Rendering/RoundTrip.antt =====
-- What a reader of the text format makes of an escaped label value.
use outbox_service.Prelude.{
  ◌≡◌, sym, ap, ◌∙◌, Bool, false, not, ◌&&◌, Option, none, some, String, if◌then◌else◌, ◌==◌, arith,
  inl, inr, Bool-cases,
}
use Prim.Native.Char.{Char, char, code}
use Prim.Native.String.{◌++◌ as concat}
use Prim.Native.String.append
use text.Mathlib.TextEquality.{Char-path}
use outbox_service.Rendering.Escape.{
  escape_prometheus_label_value, escape_each, escape_prometheus_label_value_lem,
}

-- the character after a backslash
abbrev pub decoded : Char → Char
decoded c = if code c == 110 then char 10 tt else c

-- the value with one more character in front
abbrev pub after : Char → Option (String × String) → Option (String × String)
after c none = none
after c (some (value, rest)) = some (String.◌∷◌ c value, rest)

-- Reads a quoted value, after a backslash or not: it ends at the first quote that no backslash stands
-- before, and the text goes on behind that quote. No value has a line break.
abbrev pub read_value : Bool → String → Option (String × String)
read_value pending String.[] = none
read_value pending (String.◌∷◌ c s) =
    let rest = read_value (not pending && code c == 92) s in
    if pending
    then after (decoded c) rest
    else if code c == 92
    then rest
    else if code c == 34
    then some ("", s)
    else if code c == 10
    then none
    else after c rest

two_chars :
    (a b : Char) (t : String)
    → concat (String.◌∷◌ a (String.◌∷◌ b "")) t ≡ String.◌∷◌ a (String.◌∷◌ b t)
two_chars a b t =
    append.cons a (String.◌∷◌ b "") t
    ∙ ap (λ r. String.◌∷◌ a r) (append.cons b "" t ∙ ap (λ r. String.◌∷◌ b r) (append.nil t))

abbrev value_then : String → String → Option (String × String)
value_then value rest = some (value, rest)

escaped_pair :
    (a b : Char) (t u : String)
    → concat (concat (String.◌∷◌ a (String.◌∷◌ b "")) t) u
      ≡ String.◌∷◌ a (String.◌∷◌ b (concat t u))
escaped_pair a b t u =
    ap (λ r. concat r u) (two_chars a b t)
    ∙ append.cons a (String.◌∷◌ b t) u
    ∙ ap (λ r. String.◌∷◌ a r) (append.cons b t u)

escape_each_reads :
    (s t : String) → read_value false (concat (escape_each s) (concat "\"" t)) ≡ some (s, t)
escape_each_reads String.[] t =
    ap (read_value false) (append.nil (concat "\"" t) ∙ append.cons (char 34 tt) "" t)
    ∙ ap (value_then "") (append.nil t)
escape_each_reads (String.◌∷◌ c s) t =
    let quoted = concat "\"" t in
    let back = λ (d : Char). ap (after d) (escape_each_reads s t) in
    let pair =
      λ (b : Char). ap (read_value false) (escaped_pair (char 92 tt) b (escape_each s) quoted) in
    let same = λ (d : Char) (e : c ≡ d). ap (λ x. value_then (String.◌∷◌ x s) t) (sym e) in
    elim (Bool-cases (code c == 92)) [
      | inl slash ↦ rw slash (
          pair (char 92 tt)
          ∙ back (char 92 tt)
          ∙ same (char 92 tt) (Char-path c (char 92 tt) (ground (arith, slash))))
      | inr no_slash ↦ elim (Bool-cases (code c == 10)) [
        | inl line ↦
            rw (no_slash, line)
              (pair (char 110 tt)
                ∙ back (char 10 tt)
                ∙ same (char 10 tt) (Char-path c (char 10 tt) (ground (arith, line))))
        | inr no_line ↦ elim (Bool-cases (code c == 34)) [
          | inl quote ↦
              rw (no_slash, no_line, quote)
                (pair (char 34 tt)
                  ∙ back (char 34 tt)
                  ∙ same (char 34 tt) (Char-path c (char 34 tt) (ground (arith, quote))))
          | inr no_quote ↦
              rw (no_slash, no_line, no_quote)
                (ap (read_value false) (append.cons c (escape_each s) quoted)
                  ∙ rw (no_slash, no_quote, no_line) (back c))
        ]
      ]
    ]

-- A reader of a quoted value, which ends at the first quote without a backslash before it and accepts no
-- line break, reads the escaped value and its closing quote, before whatever text, as the value itself.
pub escape_prometheus_label_value_reads :
    (s t : String)
    → read_value false (concat (escape_prometheus_label_value s) (concat "\"" t)) ≡ some (s, t)
escape_prometheus_label_value_reads s t =
    rw (escape_prometheus_label_value_lem s) (escape_each_reads s t)
