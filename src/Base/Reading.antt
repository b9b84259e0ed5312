-- ===== src/Base/Reading.antt =====
-- How a JSON payload and a query are read: Python's truth test, `or`, `str`, `int`, `list`
-- and `dict`. Digits are read in the ASCII range.
use Prim.Native.Char.{Char, code}
use Prim.Native.String as S
use sovran_bitcoin.Base.{
  ℕ, ◌+◌, ◌-◌, ◌*◌, String, Bool, true, false, Option, none, some, List, [], ◌∷◌, ◌&&◌, not, leb,
  ◌==◌, if◌then◌else◌,
}
use sovran_bitcoin.Base.Int.{ℤ, pos, ◌-ℤ◌, ◌==ℤ◌}
use sovran_bitcoin.Base.Json.{Json, Items, Fields, Dict, get}
use sovran_bitcoin.Base.Monad.{Exc, Result, ok, raised}
use sovran_bitcoin.Base.Text.{◌=ₛ◌, nonempty, strip}

-- `str(x)` of a value that is no text, `dict(xs)` of a list, and `urllib.parse.unquote`.
pub record Python : Type 0 where
  pub repr : Json → String
  pub dict_of : Items → Option Dict
  pub unquote : String → String

-- `bool(x)`
abbrev pub truthy : Json → Bool
truthy Json.null = false
truthy (Json.bool b) = b
truthy (Json.num z) = not (z ==ℤ pos 0)
truthy (Json.str s) = nonempty s
truthy (Json.arr Items.nil) = false
truthy (Json.arr (Items.cons x xs)) = true
truthy (Json.obj Fields.end) = false
truthy (Json.obj (Fields.field k v fs)) = true

-- `d.get(k) or …`: `none` stands for the default.
abbrev pub if_truthy : Option Json → Option Json
if_truthy none = none
if_truthy (some x) = if truthy x then some x else none

-- `str(x)`
abbrev pub text : Python → Json → String
text py (Json.str s) = s
text py x = py.repr x

abbrev pub or_text : Python → Option Json → String → String
or_text py none default = default
or_text py (some x) default = text py x

-- `str(d.get(k) or default)`
abbrev pub text_at : Python → String → String → Dict → String
text_at py k default d = or_text py (if_truthy (get k d)) default

digit? : Char → Bool
digit? c = leb b'0' (code c) && leb (code c) b'9'

-- The digits of `int(s)`: an underscore may stand between two of them. The flag says whether a digit
-- stands just before.
unfoldable pub digits : Bool → ℕ → String → Option ℕ
unfolding digit?
digits after n String.[] = if after then some n else none
digits after n (String.◌∷◌ c s) =
    let next = digits true (n * 10 + (code c - b'0')) s in
    let skip = digits false n s in
    if digit? c then next else if after && code c == b'_' then skip else none

abbrev pub plus : Option ℕ → Option ℤ
plus none = none
plus (some n) = some (pos n)

abbrev pub minus : Option ℕ → Option ℤ
minus none = none
minus (some n) = some (pos 0 -ℤ pos n)

abbrev pub signed : String → Option ℤ
signed String.[] = none
signed (String.◌∷◌ c s) =
    if code c == b'-'
    then minus (digits false 0 s)
    else if code c == b'+'
    then plus (digits false 0 s)
    else plus (digits false 0 (String.◌∷◌ c s))

-- `int(s)` of a text.
unfoldable pub read_int : String → Option ℤ
read_int s = signed (strip s)

abbrev pub or_value_error : Option ℤ → Result ℤ
or_value_error none = raised Exc.value_error
or_value_error (some z) = ok z

-- `int(x)`
abbrev pub int_of : Json → Result ℤ
int_of Json.null = raised Exc.type_error
int_of (Json.bool b) = ok (if b then pos 1 else pos 0)
int_of (Json.num z) = ok z
int_of (Json.str s) = or_value_error (read_int s)
int_of (Json.arr xs) = raised Exc.type_error
int_of (Json.obj fs) = raised Exc.type_error

abbrev pub or_zero : Option Json → Result ℤ
or_zero none = ok (pos 0)
or_zero (some x) = int_of x

-- `int(d.get(k) or 0)`
abbrev pub int_at : String → Dict → Result ℤ
int_at k d = or_zero (if_truthy (get k d))

-- `int(d[k]) if d.get(k) is not None else None`
abbrev pub given : Option Json → Option Json
given none = none
given (some Json.null) = none
given (some x) = some x

abbrev pub map_some : Result ℤ → Result (Option ℤ)
map_some (ok z) = ok (some z)
map_some (raised e) = raised e

abbrev pub optional : Option Json → Result (Option ℤ)
optional none = ok none
optional (some x) = map_some (int_of x)

abbrev pub optional_at : String → Dict → Result (Option ℤ)
optional_at k d = optional (given (get k d))

-- `list(…)` of a value: the items, the characters of a text, the keys of a dict.
pub texts : Python → Items → List String
texts py Items.nil = []
texts py (Items.cons x xs) = text py x ∷ texts py xs

pub chars : String → List String
chars String.[] = []
chars (String.◌∷◌ c s) = String.◌∷◌ c String.[] ∷ chars s

pub keys : Dict → List String
keys Fields.end = []
keys (Fields.field k v fs) = k ∷ keys fs

unfoldable pub list_of : Python → Json → Result (List String)
unfolding texts chars keys
list_of py (Json.arr xs) = ok (texts py xs)
list_of py (Json.str s) = ok (chars s)
list_of py (Json.obj fs) = ok (keys fs)
list_of py x = raised Exc.type_error

abbrev pub or_empty : Python → Option Json → Result (List String)
or_empty py none = ok []
or_empty py (some x) = list_of py x

-- `dict(…)` of a value.
abbrev pub found_dict : Option Dict → Result Dict
found_dict none = raised Exc.value_error
found_dict (some d) = ok d

abbrev pub dict_at : Python → Option Json → Result Dict
dict_at py none = ok Fields.end
dict_at py (some (Json.obj fs)) = ok fs
dict_at py (some (Json.arr xs)) = found_dict (py.dict_of xs)
dict_at py (some (Json.str s)) = raised Exc.value_error
dict_at py (some x) = raised Exc.type_error

-- `bool(d.get(k, default))`
abbrev pub flag : Option Json → Bool → Bool
flag none default = default
flag (some x) default = truthy x

-- `int((qs.get(k) or [default])[0])`, where the argument is the first value.
abbrev pub query_int : Option String → ℤ → Result ℤ
query_int none default = ok default
query_int (some s) default = or_value_error (read_int s)

-- `s.startswith(prefix)`
abbrev pub starts_with : String → String → Bool
starts_with prefix s = S.slice s 0 (S.len prefix) =ₛ prefix

slash : Char → Bool
slash c = code c == b'/'

-- `s.rsplit("/", 1)[-1]`: what stands behind the last slash.
unfoldable pub after_slash : String → String → String
unfolding slash
after_slash whole String.[] = whole
after_slash whole (String.◌∷◌ c s) = after_slash (if slash c then s else whole) s

abbrev pub last_segment : String → String
last_segment s = after_slash s s
