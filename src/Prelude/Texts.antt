-- ===== src/Prelude/Texts.antt =====
-- Texts as their characters: Python's slices `s[:n]`, `len` and truth value.
use Prim.Native.Nat.{ℕ, zero, suc, ◌≤◌}
use Prim.Native.String.{String}
use mathlib.Core.Bool.{Bool, true, false}
use native.Mathlib.Omega.{arith}
use Prim.Native.Char.{code}
use mathlib.Core.Bool.{◌&&◌, ◌||◌}
use outbox_service.Prelude.Tests.{leb, ◌==◌}

-- `s[:n]`
unfoldable pub truncate : ℕ → String → String
truncate zero s = ""
truncate (suc n) String.[] = ""
truncate (suc n) (String.◌∷◌ c s) = String.◌∷◌ c (truncate n s)

-- `len(s)`
unfoldable pub char_count : String → ℕ
char_count String.[] = 0
char_count (String.◌∷◌ c s) = suc (char_count s)

-- `not s`
unfoldable pub is_empty : String → Bool
is_empty String.[] = true
is_empty (String.◌∷◌ c s) = false

-- `c.isspace()`, for the code points that Python counts as white space
abbrev is_space : ℕ → Bool
is_space c =
    leb 9 c && leb c 13
    || leb 28 c && leb c 32
    || c == 133
    || c == 160
    || c == 5760
    || leb 8192 c && leb c 8202
    || c == 8232
    || c == 8233
    || c == 8239
    || c == 8287
    || c == 12288

-- `not s.strip()`
unfoldable pub is_blank : String → Bool
is_blank String.[] = true
is_blank (String.◌∷◌ c s) = is_space (code c) && is_blank s

pub char_count-truncate : (n : ℕ) (s : String) → char_count (truncate n s) ≤ n
unfolding truncate char_count
char_count-truncate zero s = omega arith
char_count-truncate (suc n) String.[] = omega arith
char_count-truncate (suc n) (String.◌∷◌ c s) = omega (arith, char_count-truncate n s)
