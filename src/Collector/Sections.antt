-- ===== src/Collector/Sections.antt =====
-- collector/host.go: the batch output of a host, split into its sections.
use weops_inspect.Prelude.{
  ℕ, zero, suc, ◌+◌, ◌-◌, ◌*◌, ◌/◌, ◌%◌, ◌^◌, ◌≤◌, ◌<◌, ◌≡◌, refl, sym, ap, ◌∙◌, ◌≢◌, ◌↔◌, ◌⊎◌, inl,
  inr, Bool, true, false, not, ◌&&◌, ◌||◌, Option, none, some, List, [], ◌∷◌, ◌++◌, map, arith, ltb,
  leb, ◌==◌, if◌then◌else◌, ltb→lt, lt→ltb, leb→le, ==_iff, tests, Bool-cases, Option-cases, length,
  length-append, filter, any, all, take, drop, replicate, is_empty, filter-true, count_if,
  length-filter, count_if-append, any-append, all-append, ℤ, pos, negsuc, pos_part, neg_part, sub_ℕ,
  ◌≤ℤ◌, ltb_ℤ, leb_ℤ, eqb_ℤ, succ_int, Str, codes, str_eq, str_eq_iff, str_eq_refl, str_eq_sym,
  str_lt, str_lt_irrefl, str_lt_trans, str_lt_total, Dict, lookup, insert, lookup-insert, get_or,
  FloatOps,
}
pub mod Markers
pub mod RoundTrip
use weops_inspect.Prelude.Strings.{has_prefix, has_suffix, trim_char, trim_space, split_lines}

-- The loop of parseSections: currentTag, the text in the builder, and the sections so far.
pub record SectionScan : Type 0 where
  pub tag : Str
  pub buffer : Str
  pub found : Dict Str

-- "===" at both ends
unfoldable pub is_marker : Str → Bool
unfolding has_prefix has_suffix
is_marker line = has_prefix (codes "===") line && has_suffix (codes "===") line

-- What is written to the map when a section ends.
unfoldable pub close_section : SectionScan → Dict Str
unfolding trim_space insert
close_section s = if is_empty s.tag then s.found else insert s.tag (trim_space s.buffer) s.found

unfoldable pub section_line : SectionScan → Str → SectionScan
unfolding is_marker close_section trim_char
section_line s line =
    if is_marker line
    then record {
      tag = trim_char b'=' line;
      buffer = if is_empty s.tag then s.buffer else [];
      found = close_section s;
    }
    else if is_empty s.tag
    then s
    else record s { buffer = s.buffer ++ line ++ codes "\n" }

unfoldable pub scan_sections : SectionScan → List Str → SectionScan
unfolding section_line
scan_sections s [] = s
scan_sections s (line ∷ lines) = scan_sections (section_line s line) lines

-- parseSections
unfoldable pub parse_sections : Str → Dict Str
unfolding scan_sections close_section split_lines
parse_sections output =
    close_section
      (scan_sections (record { tag = []; buffer = []; found = [] }) (split_lines output))

sections_tests :
    parse_sections (codes "x\n===DF===\na  \n\n===SS===\n===DF===\nb")
    ≡ (codes "DF", codes "b") ∷ (codes "SS", []) ∷ []
unfolding parse_sections insert str_eq
sections_tests = refl
