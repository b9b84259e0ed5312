-- ===== src/Helpers/Domain.antt =====
-- `_validate_domain_value`, `_nwc_domain` and `_nwc_lightning_address`. The environment variable and
-- what the domain file holds (or that it cannot be read) are arguments. The regular expression is read
-- label by label: its labels hold no dot, so there is one way to cut the text.
pub mod Hostname
use Prim.Native.Char.{Char, code}
use Prim.Native.String as S
use sovran_bitcoin.Base.{
  ℕ, String, Bool, true, false, Option, none, some, List, [], ◌∷◌, ◌&&◌, ◌||◌, not, leb, ltb, ◌==◌,
  if◌then◌else◌,
}
use sovran_bitcoin.Base.Text.{nonempty, canonical}

abbrev pub letter? : Char → Bool
letter? c = (leb b'a' (code c) && leb (code c) b'z') || (leb b'A' (code c) && leb (code c) b'Z')

abbrev pub alnum? : Char → Bool
alnum? c = letter? c || (leb b'0' (code c) && leb (code c) b'9')

abbrev pub inner? : Char → Bool
inner? c = alnum? c || code c == b'-'

abbrev pub dot? : Char → Bool
dot? c = code c == b'.'

-- `'\n'`, `'\r'`, `' '`, `'\t'` and `'#'`
abbrev pub unsafe? : Char → Bool
unsafe? c = code c == 10 || (code c == 13 || (code c == 32 || (code c == 9 || code c == b'#')))

unfoldable pub any_unsafe : String → Bool
any_unsafe S.[] = false
any_unsafe (S.◌∷◌ c s) = unsafe? c || any_unsafe s

-- What stands behind the first character of a label: `[a-zA-Z0-9\-]*[a-zA-Z0-9]`, or nothing.
unfoldable pub label_rest : Char → String → Bool
label_rest last S.[] = alnum? last
label_rest last (S.◌∷◌ c s) = inner? c && label_rest c s

-- `[a-zA-Z0-9](?:[a-zA-Z0-9\-]{0,61}[a-zA-Z0-9])?`
unfoldable pub is_label : String → Bool
unfolding label_rest
is_label S.[] = false
is_label (S.◌∷◌ c s) = alnum? c && (label_rest c s && leb (S.len (S.◌∷◌ c s)) 63)

unfoldable pub all_letters : String → Bool
all_letters S.[] = true
all_letters (S.◌∷◌ c s) = letter? c && all_letters s

-- `[a-zA-Z]{2,}`
abbrev pub is_top : String → Bool
is_top s = all_letters s && leb 2 (S.len s)

abbrev pub onto_first : Char → List String → List String
onto_first c [] = S.◌∷◌ c S.[] ∷ []
onto_first c (l ∷ ls) = S.◌∷◌ c l ∷ ls

-- The text cut at its dots.
unfoldable pub labels : String → List String
labels S.[] = "" ∷ []
labels (S.◌∷◌ c s) = let rest = labels s in if dot? c then "" ∷ rest else onto_first c rest

-- One label or more, each before a dot, and the last part.
unfoldable pub are_labels : List String → Bool
unfolding is_label all_letters
are_labels [] = false
are_labels (l ∷ []) = false
are_labels (l ∷ top ∷ []) = is_label l && is_top top
are_labels (l ∷ m ∷ n ∷ ls) = is_label l && are_labels (m ∷ n ∷ ls)

unfoldable pub validate_domain_value : String → Bool
unfolding any_unsafe labels are_labels
validate_domain_value domain =
    if not (nonempty domain) || ltb 253 (S.len domain)
    then false
    else if any_unsafe domain
    then false
    else are_labels (labels domain)

abbrev pub if_valid : String → Option String
if_valid domain = if validate_domain_value domain then some domain else none

abbrev pub from_file : Option String → Option String
from_file none = none
from_file (some content) = if_valid (canonical (S.slice content 0 256))

unfoldable pub nwc_domain : String → Option String → Option String
nwc_domain variable file =
    if nonempty (canonical variable) then if_valid (canonical variable) else from_file file

unfoldable pub lightning_address : String → Option String → Option String
lightning_address alias none = none
lightning_address alias (some domain) =
    if nonempty domain then some (S.◌++◌ alias (S.◌++◌ "@" domain)) else none
