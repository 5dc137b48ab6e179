-- ===== src/Collector/Disk/Selection.antt =====
-- collector/host.go: which lines of df end up in the report.
use weops_inspect.Prelude.{
  ◌≡◌, refl, ap, ◌∙◌, Bool, true, false, not, ◌&&◌, ◌||◌, Option, none, some, List, [], ◌∷◌, map,
  arith, filter, is_empty, Str, FloatOps,
}
use weops_inspect.Prelude.Strings.{contains, split_lines}
use weops_inspect.Model.{DiskUsage}
use weops_inspect.Collector.Disk.{
  DfLine, disk_fs_blocklist, disk_fs_allowlist, disk_fs_nfs, should_collect_fs, explicit_paths,
  df_line, is_collected, skip_header, disk_usage_of, add_df_line, df_lines, parse_disk_usage,
}

-- The rows of the table of df: its lines with seven columns.
abbrev pub df_row : Option DfLine → List DfLine → List DfLine
df_row none rows = rows
df_row (some l) rows = l ∷ rows

unfoldable pub df_rows : List Str → List DfLine
unfolding df_line
df_rows [] = []
df_rows (line ∷ lines) = let rest = df_rows lines in df_row (df_line line) rest

-- The rule for a filesystem in words of its own: no pseudo filesystem; of the others the listed mount
-- points, and where none is listed the real filesystems, and the network ones where these are asked for.
unfoldable pub is_wanted : List Str → Bool → DfLine → Bool
unfolding contains disk_fs_blocklist disk_fs_nfs disk_fs_allowlist
is_wanted paths include_nfs l =
    not (contains l.fs_type disk_fs_blocklist)
    && (not (is_empty paths) && contains l.mount_point paths
        || is_empty paths && include_nfs && contains l.fs_type disk_fs_nfs
        || is_empty paths
          && not (contains l.fs_type disk_fs_nfs)
          && contains l.fs_type disk_fs_allowlist)

is_collected-is_wanted :
    (paths : List Str) (include_nfs : Bool) (l : DfLine)
    → is_collected paths include_nfs l ≡ is_wanted paths include_nfs l
unfolding is_collected is_wanted should_collect_fs
is_collected-is_wanted paths include_nfs l = ground arith

module _ {F : Type 0} ⦃fl : FloatOps F⦄ where
  abbrev pub selection : List Str → Bool → List DfLine → List (DiskUsage F) × List Str
  selection paths include_nfs rows =
      (map disk_usage_of (filter (is_wanted paths include_nfs) rows), map (λ l. l.mount_point) rows)

  add_row :
      (paths : List Str) (include_nfs b : Bool) (l : DfLine) (rows : List DfLine)
      → is_collected paths include_nfs l ≡ b
      → is_wanted paths include_nfs l ≡ b
      → add_df_line paths include_nfs (some l) (selection paths include_nfs rows)
        ≡ selection paths include_nfs (l ∷ rows)
  unfolding add_df_line filter
  add_row paths include_nfs true l rows h g = rw (h, g) refl
  add_row paths include_nfs false l rows h g = rw (h, g) refl

  add_line :
      (paths : List Str) (include_nfs : Bool) (o : Option DfLine) (rows : List DfLine)
      → add_df_line paths include_nfs o (selection paths include_nfs rows)
        ≡ selection paths include_nfs (df_row o rows)
  unfolding add_df_line
  add_line paths include_nfs none rows = refl
  add_line paths include_nfs (some l) rows =
      add_row paths include_nfs (is_wanted paths include_nfs l) l rows
        (is_collected-is_wanted paths include_nfs l) refl

  df_lines-selection :
      (paths : List Str) (include_nfs : Bool) (lines : List Str)
      → df_lines paths include_nfs lines ≡ selection paths include_nfs (df_rows lines)
  unfolding df_lines df_rows filter
  df_lines-selection paths include_nfs [] = refl
  df_lines-selection paths include_nfs (line ∷ lines) =
      ap (add_df_line paths include_nfs (df_line line)) (df_lines-selection paths include_nfs lines)
      ∙ add_line paths include_nfs (df_line line) (df_rows lines)

  -- parseDiskUsage returns, in the order of df, the wanted rows of its table as disk usages, and the
  -- mount points of all rows. Wanted is no pseudo filesystem of the blocklist; of the others a listed
  -- mount point, or where none is listed a real filesystem, or a network one where these are asked for.
  pub parse_disk_usage-filter :
      (output mount_paths : Str) (include_nfs : Bool)
      → parse_disk_usage {F = F} output mount_paths include_nfs
        ≡ selection
            (explicit_paths mount_paths)
            include_nfs
            (df_rows (skip_header (split_lines output)))
  unfolding parse_disk_usage
  parse_disk_usage-filter output mount_paths include_nfs =
      df_lines-selection (explicit_paths mount_paths) include_nfs (skip_header (split_lines output))
