-- ===== src/Prelude/Text.antt =====
-- Text: equality of whole texts, and `not value.strip()`.
use Prim.Native.Nat.{ℕ}
use Prim.Native.Char.{code}
use Prim.Native.String.{String}
use mathlib.Core.Path.{◌≡◌, refl}
use mathlib.Core.Bool.{Bool, true, false, ◌&&◌, ◌||◌}
use text.Mathlib.Text.{◌==◌ as text_eq}
use text.Mathlib.TextEquality.{eq_iff}
use database_alert_agent.Prelude.Tests.{leb, ◌==◌}

abbrev pub str_eq : String → String → Bool
str_eq s t = text_eq s t

pub str_eq_refl : (s : String) → str_eq s s ≡ true
str_eq_refl s = (eq_iff s s).1 refl

pub str_eq→≡ : (s t : String) → str_eq s t ≡ true → s ≡ t
str_eq→≡ s t h = (eq_iff s t).0 h

-- The code points that `str.strip` removes.
is_space : ℕ → Bool
is_space c =
    (leb 9 c && leb c 13)
    || (leb 28 c && leb c 32)
    || c == 133
    || c == 160
    || c == 5760
    || (leb 8192 c && leb c 8202)
    || c == 8232
    || c == 8233
    || c == 8239
    || c == 8287
    || c == 12288

unfoldable pub is_blank : String → Bool
unfolding is_space
is_blank String.[] = true
is_blank (String.◌∷◌ c s) = is_space (code c) && is_blank s

is_blank_word : is_blank " a" ≡ false
unfolding is_blank
is_blank_word = refl
