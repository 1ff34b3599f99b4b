-- ===== src/Examples/Apply.antt =====
-- Writes to a file system of two files, the config and a temporary one.
use gobackup_docker.Base.{
  inl, Bool-cases, inr, ◌≡◌, Bool, true, false, Option, none, some, [], ◌∷◌, Bytes, codes, All,
  str_eq, if◌then◌else◌, refl,
}
use gobackup_docker.Apply.{FileSystem, FileWriter, atomic_write, apply}
use gobackup_docker.Apply.Laws.{FileLaws, AfterWrite, AfterRename}
use gobackup_docker.Apply.Atomic.{AfterApply, apply_lem}
use gobackup_docker.Apply.Observed.{observed, IsWhole, atomic_write_lem}

-- the temporary file, and the config
abbrev pub Files : Type 0
Files = Option Bytes × Option Bytes

abbrev pub temp : Bytes
temp = codes "t"

abbrev pub config : Bytes
config = codes "c"

abbrev pub read_file : Bytes → Files → Option Bytes
read_file n f = if str_eq n temp then f.0 else f.1

-- a file system in which a directory can be synced or not
abbrev pub files : Bool → FileSystem Files
files b = record {
  create_temp = λ p q f. ((some [], f.1), some temp);
  write = λ t text f. if str_eq t temp then ((some text, f.1), true) else (f, false);
  chmod = λ t mode f. (f, true);
  sync = λ t f. (f, true);
  close = λ t f. (f, true);
  rename = λ t p f. if str_eq t temp then ((none, f.0), true) else (f, false);
  remove = λ t f. ((none, f.1), true);
  open_dir = λ p f. (f, true);
  sync_dir = λ p f. (f, b);
  close_dir = λ p f. (f, true);
}

module _ (b : Bool) where
  pub write_config :
      (t text : Bytes) (f : Files)
      → read_file config ((files b).write t text f).0 ≡ read_file config f
  unfolding str_eq
  write_config t text f = elim (Bool-cases (str_eq t temp)) [
    | inl y ↦ rw y refl
    | inr n ↦ rw n refl
  ]

  pub write_temp :
      (t text : Bytes) (f : Files)
      → AfterWrite text (read_file t ((files b).write t text f).0) ((files b).write t text f).1
  write_temp t text f = elim (Bool-cases (str_eq t temp)) [ inl y ↦ rw y refl | inr n ↦ rw n tt ]

  pub rename_config :
      (t : Bytes) (f : Files)
      → AfterRename
          (read_file config f)
          (read_file t f)
          (read_file config ((files b).rename t config f).0)
          ((files b).rename t config f).1
  unfolding str_eq
  rename_config t f = elim (Bool-cases (str_eq t temp)) [
    | inl y ↦ rw y refl
    | inr n ↦ rw n (inl refl)
  ]

  unfoldable pub files_Laws : FileLaws (files b) config
  unfolding str_eq
  files_Laws = record {
    read = read_file;
    temp_other = λ f. refl;
    temp_read = λ f. refl;
    write_other = λ t text f n. write_config t text f;
    write_done = write_temp;
    chmod_read = λ n t mode f. refl;
    sync_read = λ n t f. refl;
    close_read = λ n t f. refl;
    rename_read = rename_config;
    remove_other = λ t f n. refl;
    open_dir_read = λ f. refl;
    sync_dir_read = λ f. refl;
    close_dir_read = λ f. refl;
  }

abbrev pub old_files : Files
old_files = (none, some (codes "old"))

atomic_write_example :
    let s = (atomic_write (observed (files true)) config (codes "new") 0o644 (old_files, [])).0 in
    All
      (IsWhole (files_Laws true) ((files_Laws true).read config old_files) (codes "new"))
      (s.0 ∷ s.1)
atomic_write_example = atomic_write_lem (files_Laws true) (codes "new") 0o644 old_files

abbrev writer : FileWriter
writer = record { path = config; last = codes "old" }

abbrev pub any_yaml : Bytes → Bool
any_yaml text = true

apply_example :
    AfterApply writer
      (files_Laws true)
      old_files
      (codes "new")
      (apply (files true) any_yaml writer (codes "new") old_files)
unfolding files_Laws str_eq
apply_example = apply_lem writer (files_Laws true) any_yaml (codes "new") old_files (inr refl)

-- After a directory that cannot be synced the new text is in the file, though the writer still
-- takes the old one for it: asked for the old one again, it writes nothing.
unsynced_stays :
    let first = apply (files false) any_yaml writer (codes "new") old_files in
    let second = apply (files false) any_yaml first.1 (codes "old") first.0 in
    (first.2 ≡ none) × (second.2 ≡ some false) × (read_file config second.0 ≡ some (codes "new"))
unfolding apply str_eq atomic_write
unsynced_stays = (refl, refl, refl)
