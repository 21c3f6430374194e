-- ===== src/Base/Text.antt =====
-- Text as the program walks it, character by character.
use Prim.Native.Nat.{ℕ, ◌+◌, ◌*◌, ◌-◌}
use Prim.Native.Char.{Char, code}
use Prim.Native.String.{String}
use mathlib.Core.Path.{◌≡◌}
use mathlib.Core.Bool.{Bool, true, false, ◌&&◌, ◌||◌}
use mathlib.Core.List.{List, [], ◌∷◌}
use mathlib.Core.Option.{Option, none, some}
use native.Mathlib.Omega.{arith}
use text.Mathlib.Text.{◌==◌ as str_eq}
use opti_gate.Base.Equality.{ltb, leb, ◌==◌, nat_eq, if◌then◌else◌}
use opti_gate.Base.Sorting.{IsOrder}

-- Python's `<=` on `str`: lexicographic by code point.
unfoldable pub str_leb : String → String → Bool
str_leb String.[] t = true
str_leb (String.◌∷◌ c s) String.[] = false
str_leb (String.◌∷◌ c s) (String.◌∷◌ d t) =
    if ltb (code c) (code d) then true else if ltb (code d) (code c) then false else str_leb s t

str_leb_total : (s t : String) → str_leb s t ≡ false → str_leb t s ≡ true
unfolding str_leb
str_leb_total String.[] t h = ground arith
str_leb_total (String.◌∷◌ c s) String.[] h = ground arith
str_leb_total (String.◌∷◌ c s) (String.◌∷◌ d t) h = ground (arith, str_leb_total s t)

str_leb_trans : (s t u : String) → str_leb s t ≡ true → str_leb t u ≡ true → str_leb s u ≡ true
unfolding str_leb
str_leb_trans String.[] t u h k = ground arith
str_leb_trans (String.◌∷◌ c s) String.[] u h k = ground arith
str_leb_trans (String.◌∷◌ c s) (String.◌∷◌ d t) String.[] h k = ground arith
str_leb_trans (String.◌∷◌ c s) (String.◌∷◌ d t) (String.◌∷◌ e u) h k =
    ground (arith, str_leb_trans s t u)

pub str_leb-IsOrder : IsOrder str_leb
str_leb-IsOrder = record { total = str_leb_total; trans = str_leb_trans }

-- `s + t`
infixr 65 ◌<>◌
abbrev pub ◌<>◌ : String → String → String
String.[] <> t = t
String.◌∷◌ c s <> t = String.◌∷◌ c (s <> t)

abbrev pub is_empty : String → Bool
is_empty String.[] = true
is_empty (String.◌∷◌ c s) = false

unfoldable pub push_head : Char → List String → List String
push_head c [] = String.◌∷◌ c String.[] ∷ []
push_head c (s ∷ rest) = String.◌∷◌ c s ∷ rest

-- `s.split(sep)` for a separator of one character.
unfoldable pub split_on : ℕ → String → List String
unfolding push_head
split_on sep String.[] = String.[] ∷ []
split_on sep (String.◌∷◌ c s) =
    if code c == sep then String.[] ∷ split_on sep s else push_head c (split_on sep s)

-- `s.partition(sep)`, without the separator itself.
unfoldable pub partition : ℕ → String → String × String
partition sep String.[] = (String.[], String.[])
partition sep (String.◌∷◌ c s) =
    if code c == sep
    then (String.[], s)
    else (String.◌∷◌ c (partition sep s).0, (partition sep s).1)

-- The white space of `str.strip()` and `str.split()`.
unfoldable pub is_space : ℕ → Bool
is_space c =
    (leb 9 c && leb c 13)
    || (leb 28 c && leb c 32)
    || c == 133
    || c == 160
    || c == 5760
    || (leb 8192 c && leb c 8202)
    || c == 8232
    || c == 8233
    || c == 8239
    || c == 8287
    || c == 12288

unfoldable pub lstrip : String → String
unfolding is_space
lstrip String.[] = String.[]
lstrip (String.◌∷◌ c s) = if is_space (code c) then lstrip s else String.◌∷◌ c s

-- The characters that a test picks are dropped from the right end.
unfoldable pub rstrip_by : (ℕ → Bool) → String → String
rstrip_by drop String.[] = String.[]
rstrip_by drop (String.◌∷◌ c s) =
    let r = rstrip_by drop s in if drop (code c) && is_empty r then String.[] else String.◌∷◌ c r

unfoldable pub strip : String → String
unfolding lstrip rstrip_by
strip s = rstrip_by is_space (lstrip s)

-- The letter of `to` at the place where `from` has `c`.
translate : String → String → Char → Char
translate String.[] to c = c
translate (String.◌∷◌ f from) String.[] c = c
translate (String.◌∷◌ f from) (String.◌∷◌ t to) c =
    if code f == code c then t else translate from to c

map_text : (Char → Char) → String → String
map_text f String.[] = String.[]
map_text f (String.◌∷◌ c s) = String.◌∷◌ (f c) (map_text f s)

-- `str.lower()` and `str.upper()` of ASCII text, which all that the program stores of names is.
unfoldable pub lower : String → String
unfolding map_text translate
lower = map_text (translate "ABCDEFGHIJKLMNOPQRSTUVWXYZ" "abcdefghijklmnopqrstuvwxyz")

unfoldable pub upper : String → String
unfolding map_text translate
upper = map_text (translate "abcdefghijklmnopqrstuvwxyz" "ABCDEFGHIJKLMNOPQRSTUVWXYZ")

int_digits : ℕ → String → Option ℕ
int_digits n String.[] = some n
int_digits n (String.◌∷◌ c s) =
    if leb b'0' (code c) && leb (code c) b'9' then int_digits (n * 10 + (code c - b'0')) s else none

-- `int(s)` of ASCII digits; none where it raises.
unfoldable pub int_of : String → Option ℕ
unfolding int_digits
int_of s = if is_empty s then none else int_digits 0 s

-- `s.endswith(t)`
unfoldable pub ends_with : String → String → Bool
ends_with String.[] t = is_empty t
ends_with (String.◌∷◌ c s) t = str_eq (String.◌∷◌ c s) t || ends_with s t

-- `sep.join(parts)`
unfoldable pub join : String → List String → String
join sep [] = String.[]
join sep (s ∷ []) = s
join sep (s ∷ t ∷ rest) = s <> (sep <> join sep (t ∷ rest))

-- `s.split()`: the words between white space.
words : String → String × List String
words String.[] = (String.[], [])
words (String.◌∷◌ c s) =
    let (w, ws) = words s in
    if is_space (code c)
    then (String.[], if is_empty w then ws else w ∷ ws)
    else (String.◌∷◌ c w, ws)

unfoldable pub split_space : String → List String
unfolding words is_space
split_space s = let (w, ws) = words s in if is_empty w then ws else w ∷ ws

-- `s.startswith(p)`, with what follows the prefix.
unfoldable pub drop_prefix : String → String → Option String
drop_prefix String.[] s = some s
drop_prefix (String.◌∷◌ c p) String.[] = none
drop_prefix (String.◌∷◌ c p) (String.◌∷◌ d s) = if code c == code d then drop_prefix p s else none

abbrev prepend : Char → Option (String × String) → Option (String × String)
prepend c none = none
prepend c (some (a, b)) = some (String.◌∷◌ c a, b)

-- The text before and after the first separator, as `s.split(sep, 1)` has them; none without one.
unfoldable pub cut : ℕ → String → Option (String × String)
cut sep String.[] = none
cut sep (String.◌∷◌ c s) =
    let rest = cut sep s in if code c == sep then some (String.[], s) else prepend c rest

-- `c in s`, for a character.
unfoldable pub has_char : ℕ → String → Bool
has_char sep String.[] = false
has_char sep (String.◌∷◌ c s) = code c == sep || has_char sep s

-- `s.replace(c, "")`, for a character.
unfoldable pub erase : ℕ → String → String
erase sep String.[] = String.[]
erase sep (String.◌∷◌ c s) = if code c == sep then erase sep s else String.◌∷◌ c (erase sep s)
