-- ===== src/Base/Text.antt =====
-- Python's `str` methods on native texts. Letters are lowered in the ASCII range, where every hash,
-- key, alias and permission of the program lies; white space is what `str.strip` takes there.
use Prim.Native.Char.{Char, code}
use Prim.Native.Nat.{◌-◌}
use Prim.Native.String.{String, char_at}
use mathlib.Core.Bool.{Bool, true, false, ◌&&◌, ◌||◌}
use text.Mathlib.Text.{◌==◌ as text_eq}
use sovran_bitcoin.Base.Tests.{leb, if◌then◌else◌}

infix 50 ◌=ₛ◌
abbrev pub ◌=ₛ◌ : String → String → Bool
◌=ₛ◌ = text_eq

-- `bool(s)` and `not s`.
abbrev pub nonempty : String → Bool
nonempty String.[] = false
nonempty (String.◌∷◌ c s) = true

unfoldable pub is_space : Char → Bool
is_space c = (leb 9 (code c) && leb (code c) 13) || (leb 28 (code c) && leb (code c) 32)

unfoldable pub lstrip : String → String
lstrip String.[] = String.[]
lstrip (String.◌∷◌ c s) = let rest = lstrip s in if is_space c then rest else String.◌∷◌ c s

rstrip_cons : Char → String → String
rstrip_cons c String.[] = if is_space c then String.[] else String.◌∷◌ c String.[]
rstrip_cons c (String.◌∷◌ d s) = String.◌∷◌ c (String.◌∷◌ d s)

rstrip : String → String
rstrip String.[] = String.[]
rstrip (String.◌∷◌ c s) = rstrip_cons c (rstrip s)

-- `s.strip()`.
unfoldable pub strip : String → String
unfolding is_space lstrip rstrip_cons rstrip
strip s = rstrip (lstrip s)

lower_char : Char → Char
lower_char c =
    if leb b'A' (code c) && leb (code c) b'Z'
    then char_at "abcdefghijklmnopqrstuvwxyz" (code c - b'A')
    else c

-- `s.lower()`.
unfoldable pub lower : String → String
unfolding lower_char
lower String.[] = String.[]
lower (String.◌∷◌ c s) = String.◌∷◌ (lower_char c) (lower s)

upper_char : Char → Char
upper_char c =
    if leb b'a' (code c) && leb (code c) b'z'
    then char_at "ABCDEFGHIJKLMNOPQRSTUVWXYZ" (code c - b'a')
    else c

-- `s.upper()`.
unfoldable pub upper : String → String
unfolding upper_char
upper String.[] = String.[]
upper (String.◌∷◌ c s) = String.◌∷◌ (upper_char c) (upper s)

-- `s.strip().lower()`.
abbrev pub canonical : String → String
canonical s = lower (strip s)
