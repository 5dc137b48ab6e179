-- ===== src/Collector/Sockets.antt =====
-- collector/host.go: the counts of TCP connections.
use weops_inspect.Prelude.{
  ◌+◌, ◌&&◌, none, some, List, [], ◌∷◌, leb, if◌then◌else◌, length, drop, ℤ, pos, Str, codes,
}
use weops_inspect.Prelude.Strings.{has_prefix, index, trim_space, split_lines}
use weops_inspect.Model.{NetworkStats}
use weops_inspect.Decimal.{atoi}

-- The digits at the start of a text.
unfoldable pub leading_digits : Str → Str
leading_digits [] = []
leading_digits (c ∷ s) =
    let rest = leading_digits s in if leb b'0' c && leb c b'9' then c ∷ rest else []

-- extractNumber
unfoldable pub extract_number : Str → ℤ
unfolding leading_digits atoi
extract_number s = (atoi (leading_digits s)).0

-- The number behind a word of the line, or the value before.
unfoldable pub number_after : Str → Str → ℤ → ℤ
unfolding index extract_number drop
number_after word line old = elim (index word line) [
  | none ↦ old
  | some i ↦ extract_number (drop (i + length word) line)
]

unfoldable pub ss_line : NetworkStats → Str → NetworkStats
unfolding has_prefix number_after
ss_line stats line =
    if has_prefix (codes "TCP:") line
    then record stats {
      established = number_after (codes "estab ") line stats.established;
      time_wait = number_after (codes "timewait ") line stats.time_wait;
    }
    else stats

unfoldable pub ss_lines : NetworkStats → List Str → NetworkStats
unfolding ss_line trim_space
ss_lines stats [] = stats
ss_lines stats (line ∷ lines) = ss_lines (ss_line stats (trim_space line)) lines

abbrev pub no_network : NetworkStats
no_network = record { close_wait = pos 0; established = pos 0; listen = pos 0; time_wait = pos 0 }

-- parseSSOutput
unfoldable pub parse_ss_output : Str → NetworkStats
unfolding ss_lines split_lines
parse_ss_output output = ss_lines no_network (split_lines output)
