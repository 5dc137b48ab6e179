-- ===== src/Collector/Sections/Markers.antt =====
-- collector/host.go: the text of the sections, and the markers between them.
use weops_inspect.Prelude.{
  ◌≡◌, refl, ap, inl, inr, Bool, true, false, not, ◌&&◌, List, [], ◌∷◌, ◌++◌, arith, ◌==◌,
  if◌then◌else◌, Bool-cases, all, is_empty, Str, codes, str_eq, Dict, insert,
}
use weops_inspect.Prelude.Strings.{
  has_prefix, has_suffix, is_space, trim_char, trim_char_left, trim_char_right, trim_left,
  trim_right, trim_space, split_from, split,
}
use weops_inspect.Collector.Sections.{is_marker}

-- One command of the batch: echo "===TAG===", and the lines that follow.
pub record Section : Type 0 where
  pub tag : Str
  pub lines : List Str

abbrev pub marker : Str → Str
marker tag = codes "===" ++ (tag ++ codes "===")

-- Every line with its line break.
unfoldable pub unlines : List Str → Str
unlines [] = []
unlines (line ∷ lines) = line ++ 10 ∷ unlines lines

unfoldable pub render_sections : List Section → Str
unfolding unlines
render_sections [] = []
render_sections (s ∷ ss) = marker s.tag ++ 10 ∷ (unlines s.lines ++ render_sections ss)

unfoldable pub is_line : Str → Bool
is_line = all (λ c. not (c == 10))

-- A tag holds no "=" and no line break and is not empty; a line of the body is no marker.
unfoldable pub is_section : Section → Bool
unfolding is_line is_marker all
is_section s =
    not (is_empty s.tag)
    && all (λ c. not (c == b'=')) s.tag
    && is_line s.tag
    && all (λ line. is_line line && not (is_marker line)) s.lines

-- What the map holds after these sections: the last body of each tag, without the blanks around it.
unfoldable pub section_map : List Section → Dict Str → Dict Str
unfolding insert trim_space unlines
section_map [] m = m
section_map (s ∷ ss) m = section_map ss (insert s.tag (trim_space (unlines s.lines)) m)

pub split_from-line :
    (line rest : Str)
    → is_line line ≡ true
    → split_from 10 (line ++ 10 ∷ rest) ≡ (line, split 10 rest)
unfolding split split_from is_line all
split_from-line [] rest h = refl
split_from-line (c ∷ line) rest h =
    let c_other : (c == 10) ≡ false = ground arith in
    rw (split_from-line line rest (ground arith), c_other) refl

pub split-line :
    (line rest : Str) → is_line line ≡ true → split 10 (line ++ 10 ∷ rest) ≡ line ∷ split 10 rest
unfolding split
split-line line rest h = ap (λ p. p.0 ∷ p.1) (split_from-line line rest h)

pub trim_right-break : (s : Str) → trim_right (s ++ 10 ∷ []) ≡ trim_right s
unfolding trim_right is_space
trim_right-break [] = refl
trim_right-break (c ∷ s) = rw (trim_right-break s) refl

pub trim_space-break : (s : Str) → trim_space (s ++ 10 ∷ []) ≡ trim_space s
unfolding trim_space trim_left trim_right is_space
trim_space-break [] = refl
trim_space-break (c ∷ s) = elim (Bool-cases (is_space c)) [
  | inl h ↦ rw h (trim_space-break s)
  | inr h ↦ rw h (trim_right-break (c ∷ s))
]

pub has_suffix-append : (s : Str) → has_suffix (codes "===") (s ++ codes "===") ≡ true
unfolding has_suffix str_eq
has_suffix-append [] = refl
has_suffix-append (c ∷ s) = ground (arith, has_suffix-append s)

pub and_false : {A : Type 0} (b : Bool) (x : List A) → (if b && false then [] else x) ≡ x
and_false true x = refl
and_false false x = refl

pub trim_char_right-tag :
    (tag : Str)
    → all (λ c. not (c == b'=')) tag ≡ true
    → trim_char_right b'=' (tag ++ codes "===") ≡ tag
unfolding trim_char_right all
trim_char_right-tag [] h = refl
trim_char_right-tag (c ∷ tag) h =
    let c_other : (c == b'=') ≡ false = ground arith in
    rw (trim_char_right-tag tag (ground arith), c_other) (and_false (is_empty tag) (c ∷ tag))

pub trim_char-marker :
    (tag : Str)
    → is_empty tag ≡ false
    → all (λ c. not (c == b'=')) tag ≡ true
    → trim_char b'=' (marker tag) ≡ tag
unfolding trim_char trim_char_left all
trim_char-marker [] e h = ground (arith, e)
trim_char-marker (c ∷ tag) e h =
    let c_other : (c == b'=') ≡ false = ground arith in rw c_other (trim_char_right-tag (c ∷ tag) h)

pub marker-is_marker : (tag : Str) → is_marker (marker tag) ≡ true
unfolding is_marker has_prefix
marker-is_marker tag = has_suffix-append (codes "===" ++ tag)
