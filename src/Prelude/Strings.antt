-- ===== src/Prelude/Strings.antt =====
-- The functions of Go's package strings that the program calls, on code points.
use Prim.Native.Nat.{ℕ, suc, ◌+◌, ◌-◌}
use mathlib.Core.Path.{◌≡◌, refl}
use mathlib.Core.Bool.{Bool, true, false, ◌&&◌, ◌||◌}
use mathlib.Core.Option.{Option, none, some}
use mathlib.Core.List.{List, [], ◌∷◌, ◌++◌}
use weops_inspect.Prelude.Tests.{leb, ◌==◌, if◌then◌else◌}
use weops_inspect.Prelude.Lists.{any, is_empty, drop, length}
use weops_inspect.Prelude.Text.{Str, codes, str_eq}

unfoldable pub contains : Str → List Str → Bool
contains k = any (str_eq k)

-- strings.HasPrefix
unfoldable pub has_prefix : Str → Str → Bool
has_prefix [] s = true
has_prefix (x ∷ xs) [] = false
has_prefix (x ∷ xs) (c ∷ s) = (x == c) && has_prefix xs s

-- strings.Index, `none` for -1
unfoldable pub index : Str → Str → Option ℕ
index sub [] = if has_prefix sub [] then some 0 else none
index sub (c ∷ s) =
    let rest = index sub s in
    if has_prefix sub (c ∷ s) then some 0 else elim rest [ none ↦ none | some i ↦ some (suc i) ]

-- strings.Contains
unfoldable pub has_substring : Str → Str → Bool
unfolding index
has_substring sub s = elim (index sub s) [ none ↦ false | some i ↦ true ]

-- strings.HasSuffix
unfoldable pub has_suffix : Str → Str → Bool
has_suffix suffix [] = str_eq [] suffix
has_suffix suffix (c ∷ s) = str_eq (c ∷ s) suffix || has_suffix suffix s

-- strings.TrimSuffix
unfoldable pub trim_suffix : Str → Str → Str
trim_suffix suffix [] = []
trim_suffix suffix (c ∷ s) =
    let rest = trim_suffix suffix s in if str_eq (c ∷ s) suffix then [] else c ∷ rest

-- unicode.IsSpace
unfoldable pub is_space : ℕ → Bool
is_space c =
    leb 9 c && leb c 13
    || c == 32
    || c == 133
    || c == 160
    || c == 5760
    || leb 8192 c && leb c 8202
    || c == 8232
    || c == 8233
    || c == 8239
    || c == 8287
    || c == 12288

unfoldable pub trim_left : Str → Str
unfolding is_space
trim_left [] = []
trim_left (c ∷ s) = let rest = trim_left s in if is_space c then rest else c ∷ s

unfoldable pub trim_right : Str → Str
unfolding is_space
trim_right [] = []
trim_right (c ∷ s) = let rest = trim_right s in if is_empty rest && is_space c then [] else c ∷ rest

-- strings.TrimSpace
unfoldable pub trim_space : Str → Str
unfolding trim_left trim_right
trim_space s = trim_right (trim_left s)

-- The first part up to the separator, and the others.
unfoldable pub split_from : ℕ → Str → Str × List Str
split_from sep [] = ([], [])
split_from sep (c ∷ s) =
    let (part, parts) = split_from sep s in
    if c == sep then ([], part ∷ parts) else (c ∷ part, parts)

-- strings.Split, with a separator of one character
unfoldable pub split : ℕ → Str → List Str
unfolding split_from
split sep s = let (part, parts) = split_from sep s in part ∷ parts

-- strings.Trim, with a cutset of one character
unfoldable pub trim_char_left : ℕ → Str → Str
trim_char_left cut [] = []
trim_char_left cut (c ∷ s) = let rest = trim_char_left cut s in if c == cut then rest else c ∷ s

unfoldable pub trim_char_right : ℕ → Str → Str
trim_char_right cut [] = []
trim_char_right cut (c ∷ s) =
    let rest = trim_char_right cut s in if is_empty rest && (c == cut) then [] else c ∷ rest

unfoldable pub trim_char : ℕ → Str → Str
unfolding trim_char_left trim_char_right
trim_char cut s = trim_char_right cut (trim_char_left cut s)

-- strings.Split by "\n"
unfoldable pub split_lines : Str → List Str
unfolding split
split_lines = split 10

-- strings.Split by "\r\n"
unfoldable pub split_crlf_from : Str → Str × List Str
unfolding has_prefix
split_crlf_from [] = ([], [])
split_crlf_from (c ∷ s) =
    let (part, parts) = split_crlf_from s in
    if (c == 13) && has_prefix (10 ∷ []) s then ([], drop 1 part ∷ parts) else (c ∷ part, parts)

unfoldable pub split_crlf : Str → List Str
unfolding split_crlf_from
split_crlf s = let (part, parts) = split_crlf_from s in part ∷ parts

-- The text before and after the first occurrence of a character.
unfoldable pub cut_char : ℕ → Str → Option (Str × Str)
cut_char sep [] = none
cut_char sep (c ∷ s) =
    let rest = cut_char sep s in
    if c == sep
    then some ([], s)
    else elim rest [ none ↦ none | some (before, after) ↦ some (c ∷ before, after) ]

-- strings.Cut: the text before and after the first occurrence of a text.
unfoldable pub cut_text : Str → Str → Option (Str × Str)
unfolding has_prefix drop
cut_text sep [] = if is_empty sep then some ([], []) else none
cut_text sep (c ∷ s) =
    let rest = cut_text sep s in
    if has_prefix sep (c ∷ s)
    then some ([], drop (length sep) (c ∷ s))
    else elim rest [ none ↦ none | some (before, after) ↦ some (c ∷ before, after) ]

-- strings.Fields: the words between white space.
abbrev pub add_word : Str → List Str → List Str
add_word word words = if is_empty word then words else word ∷ words

unfoldable pub fields_from : Str → Str × List Str
unfolding is_space
fields_from [] = ([], [])
fields_from (c ∷ s) =
    let (word, words) = fields_from s in
    if is_space c then ([], add_word word words) else (c ∷ word, words)

unfoldable pub fields : Str → List Str
unfolding fields_from
fields s = let (word, words) = fields_from s in add_word word words

-- strings.Join
unfoldable pub join : Str → List Str → Str
join sep [] = []
join sep (s ∷ []) = s
join sep (s ∷ t ∷ ts) = s ++ sep ++ join sep (t ∷ ts)

-- strings.ToLower and strings.ToUpper, on the letters whose result is ASCII: beside the ASCII letters
-- these are the capital I with a dot and the Kelvin sign, and the i without a dot and the long s.
unfoldable pub to_lower : Str → Str
to_lower [] = []
to_lower (c ∷ s) =
    (if leb b'A' c && leb c b'Z'
      then c + 32
      else if c == 304
      then b'i'
      else if c == 8490
      then b'k'
      else c)
    ∷ to_lower s

unfoldable pub to_upper : Str → Str
to_upper [] = []
to_upper (c ∷ s) =
    (if leb b'a' c && leb c b'z'
      then c - 32
      else if c == 305
      then b'I'
      else if c == 383
      then b'S'
      else c)
    ∷ to_upper s

-- strings.EqualFold, of a text with an ASCII one.
unfoldable pub fold_case : Str → Str
fold_case [] = []
fold_case (c ∷ s) =
    (if leb b'A' c && leb c b'Z'
      then c + 32
      else if c == 383
      then b's'
      else if c == 8490
      then b'k'
      else c)
    ∷ fold_case s

unfoldable pub equal_fold : Str → Str → Bool
unfolding fold_case
equal_fold s t = str_eq (fold_case s) (fold_case t)

strings_tests :
    (fields (codes " a  bc ") ≡ codes "a" ∷ codes "bc" ∷ [])
    × (split_crlf (codes "a\r\nb\r\n") ≡ codes "a" ∷ codes "b" ∷ [] ∷ [])
    × (cut_text (codes "---") (codes "a---b---") ≡ some (codes "a", codes "b---"))
    × (trim_char b'=' (codes "===DF===") ≡ codes "DF")
    × (has_suffix (codes "==") (codes "a==") ≡ true)
unfolding fields split_crlf cut_text trim_char has_suffix str_eq
strings_tests = (refl, refl, refl, refl, refl)
