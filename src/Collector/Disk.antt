-- ===== src/Collector/Disk.antt =====
-- collector/host.go: the filesystems that df lists, and which of them are collected.
use weops_inspect.Prelude.{
  ℕ, zero, suc, ◌+◌, ◌-◌, ◌*◌, ◌/◌, ◌%◌, ◌^◌, ◌≤◌, ◌<◌, ◌≡◌, refl, sym, ap, ◌∙◌, ◌≢◌, ◌↔◌, ◌⊎◌, inl,
  inr, Bool, true, false, not, ◌&&◌, ◌||◌, Option, none, some, List, [], ◌∷◌, ◌++◌, map, arith, ltb,
  leb, ◌==◌, if◌then◌else◌, ltb→lt, lt→ltb, leb→le, ==_iff, tests, Bool-cases, Option-cases, length,
  length-append, filter, any, all, take, drop, replicate, is_empty, filter-true, count_if,
  length-filter, count_if-append, any-append, all-append, ℤ, pos, negsuc, pos_part, neg_part, sub_ℕ,
  ◌≤ℤ◌, ltb_ℤ, leb_ℤ, eqb_ℤ, succ_int, Str, codes, str_eq, str_eq_iff, str_eq_refl, str_eq_sym,
  str_lt, str_lt_irrefl, str_lt_trans, str_lt_total, Dict, lookup, insert, lookup-insert, get_or,
  FloatOps,
}
pub mod Selection
use weops_inspect.Prelude.Strings.{
  contains, has_prefix, trim_suffix, trim_space, split, split_lines, fields, join,
}
use weops_inspect.Model.{DiskUsage}

-- diskFsBlocklist
unfoldable pub disk_fs_blocklist : List Str
disk_fs_blocklist =
    codes "tmpfs"
    ∷ codes "devtmpfs"
    ∷ codes "overlay"
    ∷ codes "overlayfs"
    ∷ codes "squashfs"
    ∷ codes "shm"
    ∷ codes "proc"
    ∷ codes "sysfs"
    ∷ codes "cgroup"
    ∷ codes "cgroup2"
    ∷ codes "autofs"
    ∷ codes "binfmt_misc"
    ∷ codes "mqueue"
    ∷ codes "pstore"
    ∷ codes "debugfs"
    ∷ codes "tracefs"
    ∷ codes "ramfs"
    ∷ codes "rpc_pipefs"
    ∷ codes "fusectl"
    ∷ codes "configfs"
    ∷ codes "securityfs"
    ∷ codes "hugetlbfs"
    ∷ codes "fuse.lxcfs"
    ∷ codes "fuse.gvfsd-fuse"
    ∷ codes "devpts"
    ∷ codes "nsfs"
    ∷ []

-- diskFsAllowlist
unfoldable pub disk_fs_allowlist : List Str
disk_fs_allowlist =
    codes "xfs"
    ∷ codes "ext2"
    ∷ codes "ext3"
    ∷ codes "ext4"
    ∷ codes "btrfs"
    ∷ codes "zfs"
    ∷ codes "f2fs"
    ∷ codes "ufs"
    ∷ codes "jfs"
    ∷ codes "reiserfs"
    ∷ codes "vfat"
    ∷ []

-- diskFsNFS
unfoldable pub disk_fs_nfs : List Str
disk_fs_nfs = codes "nfs" ∷ codes "nfs4" ∷ codes "cifs" ∷ codes "smbfs" ∷ codes "smb3" ∷ []

-- shouldCollectFs
unfoldable pub should_collect_fs : Str → Bool → Bool
unfolding contains disk_fs_blocklist disk_fs_nfs disk_fs_allowlist
should_collect_fs fs_type include_nfs =
    if contains fs_type disk_fs_blocklist
    then false
    else if contains fs_type disk_fs_nfs
    then include_nfs
    else contains fs_type disk_fs_allowlist

-- The paths of CHECK_MOUNT_PATH: explicitPaths.
unfoldable pub explicit_paths : Str → List Str
unfolding filter split trim_space
explicit_paths mount_paths =
    filter (λ p. not (is_empty p)) (map trim_space (split b':' mount_paths))

-- A line of df with its seven columns; the mount point may hold spaces.
pub record DfLine : Type 0 where
  pub fs_type : Str
  pub usage : Str
  pub mount_point : Str

unfoldable pub df_columns : List Str → Option DfLine
unfolding join
df_columns (_ ∷ fs_type ∷ _ ∷ _ ∷ _ ∷ usage ∷ mount ∷ mounts) =
    some
      (record { fs_type = fs_type; usage = usage; mount_point = join (codes " ") (mount ∷ mounts) })
df_columns _ = none

unfoldable pub df_line : Str → Option DfLine
unfolding df_columns fields
df_line line = df_columns (fields line)

-- The two tests that a line has to pass.
unfoldable pub is_collected : List Str → Bool → DfLine → Bool
unfolding contains disk_fs_blocklist should_collect_fs
is_collected paths include_nfs l =
    if contains l.fs_type disk_fs_blocklist
    then false
    else if not (is_empty paths)
    then contains l.mount_point paths
    else should_collect_fs l.fs_type include_nfs

-- The header of df, which is skipped on the first line.
unfoldable pub skip_header : List Str → List Str
unfolding has_prefix trim_space
skip_header [] = []
skip_header (line ∷ lines) =
    if has_prefix (codes "Filesystem") (trim_space line) then lines else line ∷ lines

module _ {F : Type 0} ⦃fl : FloatOps F⦄ where
  unfoldable pub disk_usage_of : DfLine → DiskUsage F
  unfolding trim_suffix
  disk_usage_of l = record {
    mount_point = l.mount_point;
    fs_type = l.fs_type;
    usage = l.usage;
    usage_float = (fl.parse_float (trim_suffix (codes "%") l.usage)).0;
  }

  -- One line: results and seenMounts, from those of the other lines.
  unfoldable pub add_df_line :
      List Str
      → Bool
      → Option DfLine
      → List (DiskUsage F) × List Str
      → List (DiskUsage F) × List Str
  unfolding is_collected disk_usage_of
  add_df_line paths include_nfs none (results, seen) = (results, seen)
  add_df_line paths include_nfs (some l) (results, seen) = (
    if is_collected paths include_nfs l then disk_usage_of l ∷ results else results,
    l.mount_point ∷ seen,
  )

  unfoldable pub df_lines : List Str → Bool → List Str → List (DiskUsage F) × List Str
  unfolding add_df_line df_line
  df_lines paths include_nfs [] = ([], [])
  df_lines paths include_nfs (line ∷ lines) =
      let rest = df_lines paths include_nfs lines in
      add_df_line paths include_nfs (df_line line) rest

  -- parseDiskUsage
  unfoldable pub parse_disk_usage : Str → Str → Bool → List (DiskUsage F) × List Str
  unfolding df_lines explicit_paths skip_header split_lines
  parse_disk_usage output mount_paths include_nfs =
      df_lines (explicit_paths mount_paths) include_nfs (skip_header (split_lines output))

-- %v of a []string
unfoldable pub list_text : List Str → Str
unfolding join
list_text xs = codes "[" ++ join (codes " ") xs ++ codes "]"

-- appendDiskWarning
unfoldable pub append_disk_warning : Str → Str → List Str → Str
unfolding trim_space list_text
append_disk_warning existing mount_paths seen =
    let msg : Str =
      if is_empty (trim_space mount_paths)
      then codes
          "disk: no real filesystem matched (try INSPECT_DISK_INCLUDE_NFS=true if this host only has NFS mounts)"
      else codes "disk: configured mount paths ["
        ++ mount_paths
        ++ codes "] did not match any of "
        ++ list_text seen in
    if is_empty existing then msg else existing ++ codes "; " ++ msg
