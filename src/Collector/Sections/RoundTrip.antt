-- ===== src/Collector/Sections/RoundTrip.antt =====
-- collector/host.go: what the batch commands print under their markers is what parseSections reads.
use weops_inspect.Prelude.{
  ◌≡◌, refl, sym, ap, ◌∙◌, inl, inr, Bool, true, false, not, ◌&&◌, ◌||◌, List, [], ◌∷◌, ◌++◌, arith,
  ◌==◌, if◌then◌else◌, Bool-cases, all, is_empty, all-append, Str, codes, Dict, insert,
}
use mathlib.Core.List.{append-nil, append_assoc}
use weops_inspect.Prelude.Strings.{has_prefix, trim_space, split_from, split, split_lines}
use weops_inspect.Collector.Sections.{
  SectionScan, is_marker, close_section, section_line, scan_sections, parse_sections,
}
use weops_inspect.Collector.Sections.Markers.{
  Section, marker, unlines, render_sections, is_line, is_section, section_map, split-line,
  trim_space-break, trim_char-marker, marker-is_marker,
}

-- The loop over the lines of a body, inside a section.
scan-body :
    (s : SectionScan) (lines : List Str) (rest : Str)
    → is_empty s.tag ≡ false
    → all (λ line. is_line line && not (is_marker line)) lines ≡ true
    → scan_sections s (split 10 (unlines lines ++ rest))
      ≡ scan_sections (record s { buffer = s.buffer ++ unlines lines }) (split 10 rest)
unfolding unlines scan_sections all
scan-body s [] rest t h =
    ap (λ b. scan_sections (record s { buffer = b }) (split 10 rest)) (sym (append-nil s.buffer))
scan-body s (line ∷ lines) rest t h =
    let plain_line : is_line line ≡ true = ground arith in
    let no_marker : is_marker line ≡ false = ground arith in
    ap (λ text. scan_sections s (split 10 text)) (append_assoc line (10 ∷ unlines lines) rest)
    ∙ ap (scan_sections s) (split-line line (unlines lines ++ rest) plain_line)
    ∙ ap (λ r. scan_sections r (split 10 (unlines lines ++ rest))) (line_added no_marker)
    ∙ scan-body (record s { buffer = s.buffer ++ line ++ codes "\n" }) lines rest t (ground arith)
    ∙ ap (λ b. scan_sections (record s { buffer = b }) (split 10 rest)) (simp (append_assoc))
  where
    line_added :
        is_marker line ≡ false
        → section_line s line ≡ record s { buffer = s.buffer ++ line ++ codes "\n" }
    line_added e = unfold section_line in rw (e, t) refl

section_parts :
    (s : Section)
    → is_section s ≡ true
    → (is_empty s.tag ≡ false)
      × (all (λ c. not (c == b'=')) s.tag ≡ true)
      × (is_line s.tag ≡ true)
      × (all (λ line. is_line line && not (is_marker line)) s.lines ≡ true)
unfolding is_section
section_parts s h = ground arith

marker-is_line : (tag : Str) → is_line tag ≡ true → is_line (marker tag) ≡ true
unfolding is_line all
marker-is_line tag h = all-append (λ c. not (c == 10)) tag (codes "===") ∙ rw h refl

-- The builder is empty outside the sections.
unfoldable is_clean : SectionScan → Bool
is_clean s = not (is_empty s.tag) || is_empty s.buffer

buffer_after :
    (s : SectionScan) → is_clean s ≡ true → (if is_empty s.tag then s.buffer else []) ≡ []
unfolding is_clean
buffer_after s h = reset (is_empty s.tag) s.buffer h
  where
    reset : (b : Bool) (t : Str) → (not b || is_empty t) ≡ true → (if b then t else []) ≡ []
    reset true [] e = refl
    reset true (c ∷ t) e = ground (arith, e)
    reset false t e = refl

at_marker :
    (s : SectionScan) (tag : Str)
    → is_clean s ≡ true
    → is_empty tag ≡ false
    → all (λ c. not (c == b'=')) tag ≡ true
    → section_line s (marker tag) ≡ record { tag = tag; buffer = []; found = close_section s }
unfolding section_line
at_marker s tag h e a = rw (marker-is_marker tag, trim_char-marker tag e a, buffer_after s h) refl

scan-section :
    (s : SectionScan) (sec : Section) (rest : Str)
    → is_clean s ≡ true
    → is_section sec ≡ true
    → scan_sections s (split 10 (marker sec.tag ++ 10 ∷ (unlines sec.lines ++ rest)))
      ≡ scan_sections
          (record { tag = sec.tag; buffer = unlines sec.lines; found = close_section s })
          (split 10 rest)
unfolding scan_sections
scan-section s sec rest h g =
    let p = section_parts sec g in
    ap (scan_sections s)
      (split-line (marker sec.tag) (unlines sec.lines ++ rest) (marker-is_line sec.tag p.2))
    ∙ ap (λ r. scan_sections r (split 10 (unlines sec.lines ++ rest)))
        (at_marker s sec.tag h p.0 p.1)
    ∙ scan-body (record { tag = sec.tag; buffer = []; found = close_section s }) sec.lines rest p.0
        p.3

closed-section :
    (sec : Section) (found : Dict Str)
    → is_section sec ≡ true
    → close_section (record { tag = sec.tag; buffer = unlines sec.lines; found = found })
      ≡ insert sec.tag (trim_space (unlines sec.lines)) found
unfolding close_section
closed-section sec found g = rw (section_parts sec g).0 refl

-- The empty text after the last line break.
last_line :
    (s : SectionScan)
    → section_line s []
      ≡ (if is_empty s.tag then s else record s { buffer = s.buffer ++ codes "\n" })
unfolding section_line is_marker has_prefix
last_line s =
    ap (λ b. if is_empty s.tag then s else record s { buffer = b ++ codes "\n" })
      (append-nil s.buffer)

closed-last :
    (s : SectionScan)
    → is_empty s.tag ≡ false
    → close_section (record s { buffer = s.buffer ++ codes "\n" }) ≡ close_section s
unfolding close_section
closed-last s h = rw h (ap (λ t. insert s.tag t s.found) (trim_space-break s.buffer))

at_end : (s : SectionScan) → close_section (scan_sections s (split 10 [])) ≡ close_section s
unfolding scan_sections split split_from
at_end s =
    ap close_section (last_line s)
    ∙ elim (Bool-cases (is_empty s.tag)) [ inl h ↦ chosen h | inr h ↦ chosen h ∙ closed-last s h ]
  where
    chosen :
        {b : Bool}
        → is_empty s.tag ≡ b
        → close_section (if is_empty s.tag then s else record s { buffer = s.buffer ++ codes "\n" })
          ≡ close_section (if b then s else record s { buffer = s.buffer ++ codes "\n" })
    chosen h =
        ap (λ c. close_section (if c then s else record s { buffer = s.buffer ++ codes "\n" })) h

scan_sections-map :
    (secs : List Section) (s : SectionScan)
    → is_clean s ≡ true
    → all is_section secs ≡ true
    → close_section (scan_sections s (split 10 (render_sections secs)))
      ≡ section_map secs (close_section s)
unfolding render_sections section_map all
scan_sections-map [] s h g = at_end s
scan_sections-map (sec ∷ secs) s h g =
    let here : is_section sec ≡ true = ground arith in
    let next : SectionScan = record {
      tag = sec.tag;
      buffer = unlines sec.lines;
      found = close_section s;
    } in
    let clean : is_clean next ≡ true = unfold is_clean in rw (section_parts sec here).0 refl in
    ap close_section (scan-section s sec (render_sections secs) h here)
    ∙ scan_sections-map secs next clean (ground arith)
    ∙ ap (section_map secs) (closed-section sec (close_section s) here)

-- parseSections reads back what the batch commands print: where each tag is not empty and holds no "=" and
-- no line break, and no line of a body is itself a marker, the map holds the last body of each tag,
-- without the blanks around it, and no other key.
pub parse_sections-render :
    (secs : List Section)
    → all is_section secs ≡ true
    → parse_sections (render_sections secs) ≡ section_map secs []
unfolding parse_sections split_lines close_section
parse_sections-render secs h =
    scan_sections-map secs (record { tag = []; buffer = []; found = [] }) (unfold is_clean in refl)
      h
