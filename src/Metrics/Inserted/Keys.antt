-- ===== src/Metrics/Inserted/Keys.antt =====
-- The texts of the keys of one extraction differ.
use outbox_service.Prelude.{
  ℕ, ◌≡◌, refl, sym, ap, ◌∙◌, Bool, true, false, not, ◌&&◌, String, arith, inl, inr, Bool-cases,
  if◌then◌else◌, str_eq, eq_iff, ◌==◌,
}
use Prim.Native.Char.{char, code}
use Prim.Native.String.{◌++◌ as concat}
use Prim.Native.String.append
use text.Mathlib.TextLemmas.{append_cancel_left}
use outbox_service.Metrics.Extractor.{ObservationKey, occurrence}
use outbox_service.Metrics.Keys.{before}
use outbox_service.Metrics.Service.{key_text}

abbrev pub no_colon : String → Bool
no_colon String.[] = true
no_colon (String.◌∷◌ c s) = not (code c == 58) && no_colon s

-- what `str` of an integer does: integers have texts of their own, without colons
abbrev pub IsDecimal : (ℕ → String) → Type 0
IsDecimal digits =
    ((n m : ℕ) → digits n ≡ digits m → n ≡ m) × ((n : ℕ) → no_colon (digits n) ≡ true)

before_colon : String → String
before_colon String.[] = ""
before_colon (String.◌∷◌ c s) = if code c == 58 then "" else String.◌∷◌ c (before_colon s)

before_colon_lem :
    (p s : String) → no_colon p ≡ true → before_colon (concat p (concat ":occurrence:" s)) ≡ p
unfolding before_colon
before_colon_lem String.[] s h =
    ap before_colon
      (append.nil (concat ":occurrence:" s) ∙ append.cons (char 58 tt) "occurrence:" s)
before_colon_lem (String.◌∷◌ c p) s h = elim (Bool-cases (code c == 58)) [
  | inl colon ↦ absurd (ground (arith, colon, h))
  | inr other ↦
      ap before_colon (append.cons c p (concat ":occurrence:" s))
      ∙ rw (other, before_colon_lem p s (rw other at h)) refl
]

key_text-injective :
    (digits : ℕ → String) (n i m j : ℕ)
    → IsDecimal digits
    → key_text digits (occurrence n i) ≡ key_text digits (occurrence m j)
    → (n ≡ m) × (i ≡ j)
unfolding key_text
key_text-injective digits n i m j (injective, no_colons) same =
    let rest = append_cancel_left "observation:" _ _ same in
    let first : digits n ≡ digits m =
      sym (before_colon_lem (digits n) (digits i) (no_colons n))
      ∙ ap before_colon rest
      ∙ before_colon_lem (digits m) (digits j) (no_colons m) in
    let tail =
      append_cancel_left (digits n) _ _
        (rest ∙ ap (λ t. concat t (concat ":occurrence:" (digits j))) (sym first)) in
    (injective n m first, injective i j (append_cancel_left ":occurrence:" _ _ tail))

pub key_text-before :
    (digits : ℕ → String) (k l : ObservationKey)
    → IsDecimal digits
    → before k l ≡ true
    → str_eq (key_text digits k) (key_text digits l) ≡ false
key_text-before digits (occurrence n i) (occurrence m j) decimal h =
    elim (Bool-cases
      (str_eq (key_text digits (occurrence n i)) (key_text digits (occurrence m j)))) [
        | inr differ ↦ differ
        | inl same ↦
            let (first, second) = key_text-injective digits n i m j decimal ((eq_iff _ _).0 same) in
            absurd (ground (arith, first, second, h))
      ]
