-- ===== src/Gauge/Disk.antt =====
-- tide_client/controller/disk_clean.go: the old files of the FTP directories. What the file system
-- refuses is written at the files and directories themselves.
pub mod Cleaned
use tidegauge_backend.Prelude.{
  ℕ, suc, String, List, [], ◌∷◌, Bool, true, false, ◌&&◌, Option, none, some, ltb, ◌==◌,
  string_keys, if◌then◌else◌,
}
use tidegauge_backend.Prelude.Int.{ℤ, pos, ltb_ℤ, int_keys}
use tidegauge_backend.Types.{Error, new, UnixMs}
use tidegauge_backend.Exec.{Result, ok, err}

-- tide_client/global: `Ftp`.
pub record Ftp : Type 0 where
  pub path : String
  pub hold_days : ℤ

unfoldable pub check_ftp_config : Ftp → Result Bool
check_ftp_config ftp =
    if ftp.path == "" && ftp.hold_days == pos 0
    then ok false
    else if ltb_ℤ ftp.hold_days (pos 3)
    then err (new "holdDays must >= 3")
    else ok true

-- Whether `entry.Info` and `os.Remove` work for a file, and `os.ReadDir` and `os.Remove` for a directory.
pub record FileInfo : Type 0 where
  pub mod_time : UnixMs
  pub readable : Bool
  pub removable : Bool

pub record DirInfo : Type 0 where
  pub listable : Bool
  pub removable : Bool

-- The entries of a directory: one, and those after it. A directory holds its own.
pub data Entries : Type 0 where
  no_more : Entries
  a_file : String → FileInfo → Entries → Entries
  a_dir : String → DirInfo → Entries → Entries → Entries

-- `isDirEmpty` of a directory that can be read.
abbrev pub is_dir_empty : Entries → Bool
is_dir_empty no_more = true
is_dir_empty (a_file _ _ _) = false
is_dir_empty (a_dir _ _ _ _) = false

-- The file is old, and nothing keeps the code from removing it.
abbrev pub goes : UnixMs → FileInfo → Bool
goes cutoff info = info.readable && ltb_ℤ info.mod_time cutoff && info.removable

-- What is left of a directory at a depth, from its entries before and after the loop: nothing where it
-- was removed.
unfoldable pub after_loop : ℕ → ℕ → DirInfo → Entries → Entries → Option Entries
after_loop max_depth depth info before after =
    if info.listable
    then if ltb max_depth depth && is_dir_empty after && info.removable then none else some after
    else some before

unfoldable pub keep_dir : String → DirInfo → Option Entries → Entries → Entries
keep_dir name info none rest = rest
keep_dir name info (some inner) rest = a_dir name info inner rest

-- The loop over the entries of a directory at a depth; those of a directory are one deeper.
unfoldable pub clean_entries : ℕ → UnixMs → ℕ → Entries → Entries
unfolding after_loop keep_dir
clean_entries max_depth cutoff depth no_more = no_more
clean_entries max_depth cutoff depth (a_file name info rest) =
    let rest' = clean_entries max_depth cutoff depth rest in
    if goes cutoff info then rest' else a_file name info rest'
clean_entries max_depth cutoff depth (a_dir name info inner rest) =
    let inner' = clean_entries max_depth cutoff (suc depth) inner in
    let rest' = clean_entries max_depth cutoff depth rest in
    keep_dir name info (after_loop max_depth (suc depth) info inner inner') rest'

unfoldable pub clean_dir : ℕ → UnixMs → ℕ → DirInfo → Entries → Option Entries
clean_dir max_depth cutoff depth info entries =
    after_loop max_depth depth info entries (clean_entries max_depth cutoff depth entries)
