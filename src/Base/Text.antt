-- ===== src/Base/Text.antt =====
-- What the language does with a string: `trim`, `length`, and an absent value.
use Prim.Native.Nat.{ℕ, ◌+◌, ◌-◌}
use Prim.Native.Char.{Char, code}
use Prim.Native.String.{String}
use mathlib.Core.Bool.{Bool, true, false, ◌||◌, ◌&&◌}
use mathlib.Core.Option.{Option, none, some}
use vanguard_settlement_engi.Base.Tests.{leb, ◌==◌, if◌then◌else◌}

-- White space and line terminators of ECMAScript, by code point.
is_space : ℕ → Bool
is_space c =
    (leb 9 c && leb c 13)
    || c == 32
    || c == 160
    || c == 5760
    || (leb 8192 c && leb c 8202)
    || c == 8232
    || c == 8233
    || c == 8239
    || c == 8287
    || c == 12288
    || c == 65279

trim_start : String → String
trim_start String.[] = ""
trim_start (String.◌∷◌ c s) = if is_space (code c) then trim_start s else String.◌∷◌ c s

-- Drops a character at the end only where nothing but space follows.
cons_trimmed : Char → String → String
cons_trimmed c String.[] = if is_space (code c) then "" else String.◌∷◌ c ""
cons_trimmed c (String.◌∷◌ d s) = String.◌∷◌ c (String.◌∷◌ d s)

trim_end : String → String
trim_end String.[] = ""
trim_end (String.◌∷◌ c s) = cons_trimmed c (trim_end s)

-- `s.trim()`
unfoldable pub trim : String → String
unfolding is_space trim_start cons_trimmed trim_end
trim s = trim_end (trim_start s)

-- `s.length`, in UTF-16 code units
unfoldable pub js_length : String → ℕ
js_length String.[] = 0
js_length (String.◌∷◌ c s) = (if leb 65536 (code c) then 2 else 1) + js_length s

abbrev pub is_some {ℓ} : {A : Type ℓ} → Option A → Bool
is_some none = false
is_some (some _) = true

letter_at : ℕ → Char → String → Char
letter_at n default String.[] = default
letter_at n default (String.◌∷◌ c s) = if n == 0 then c else letter_at (n - 1) default s

lower_char : Char → Char
lower_char c =
    if leb 65 (code c) && leb (code c) 90
    then letter_at (code c - 65) c "abcdefghijklmnopqrstuvwxyz"
    else c

-- `s.toLowerCase()` on ASCII.
unfoldable pub to_lower : String → String
unfolding letter_at lower_char
to_lower String.[] = ""
to_lower (String.◌∷◌ c s) = String.◌∷◌ (lower_char c) (to_lower s)
