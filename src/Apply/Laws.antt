-- ===== src/Apply/Laws.antt =====
-- What is relied on of a file system.
use gobackup_docker.Base.{◌⊎◌, ℕ, ◌≡◌, Bool, true, false, Option, none, some, Bytes, str_eq}
use gobackup_docker.Apply.{ℕ, FileSystem, temp_pattern}

-- the name of a temporary file is another one than the path
abbrev pub IsOther : Bytes → Option Bytes → Type 0
IsOther path none = Unit
IsOther path (some tmp) = str_eq tmp path ≡ false

abbrev pub AfterWrite : Bytes → Option Bytes → Bool → Type 0
AfterWrite text r true = r ≡ some text
AfterWrite text r false = Unit

-- a rename is done or not done, and done when it reports so
abbrev pub AfterRename : Option Bytes → Option Bytes → Option Bytes → Bool → Type 0
AfterRename before tmp after true = after ≡ tmp
AfterRename before tmp after false = (after ≡ before) ⊎ (after ≡ tmp)

-- `read n f` is what a reader of the file `n` sees. A temporary file gets a new name; what is done
-- to it shows in no other file; a write that worked is the whole text; permissions, syncs and
-- closes change no content; a rename is atomic.
pub record FileLaws {F : Type 0} (fs : FileSystem F) (path : Bytes) : Type 0 where
  pub read : Bytes → F → Option Bytes
  pub temp_other : (f : F) → IsOther path (fs.create_temp path temp_pattern f).1
  pub temp_read : (f : F) → read path (fs.create_temp path temp_pattern f).0 ≡ read path f
  pub write_other :
      (t text : Bytes) (f : F)
      → str_eq t path ≡ false
      → read path (fs.write t text f).0 ≡ read path f
  pub write_done :
      (t text : Bytes) (f : F)
      → AfterWrite text (read t (fs.write t text f).0) (fs.write t text f).1
  pub chmod_read : (n t : Bytes) (mode : ℕ) (f : F) → read n (fs.chmod t mode f).0 ≡ read n f
  pub sync_read : (n t : Bytes) (f : F) → read n (fs.sync t f).0 ≡ read n f
  pub close_read : (n t : Bytes) (f : F) → read n (fs.close t f).0 ≡ read n f
  pub rename_read :
      (t : Bytes) (f : F)
      → AfterRename
          (read path f)
          (read t f)
          (read path (fs.rename t path f).0)
          (fs.rename t path f).1
  pub remove_other :
      (t : Bytes) (f : F) → str_eq t path ≡ false → read path (fs.remove t f).0 ≡ read path f
  pub open_dir_read : (f : F) → read path (fs.open_dir path f).0 ≡ read path f
  pub sync_dir_read : (f : F) → read path (fs.sync_dir path f).0 ≡ read path f
  pub close_dir_read : (f : F) → read path (fs.close_dir path f).0 ≡ read path f
