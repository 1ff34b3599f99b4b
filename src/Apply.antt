-- ===== src/Apply.antt =====
-- internal/apply/filewatch.go: the config written to disk. The file system and yaml.v3 are
-- parameters; of an error only that it is one is modelled.
pub mod Laws
pub mod Atomic
pub mod Observed
pub mod Steps
use gobackup_docker.Base.{
  ℕ, Bool, true, false, Option, none, some, Bytes, codes, str_eq, if◌then◌else◌,
}

-- The calls of package os on a file system in a state `F`, each with whether it worked: a temporary
-- file is known by its name, a directory by the path of a file in it.
pub record FileSystem (F : Type 0) : Type 0 where
  pub create_temp : Bytes → Bytes → F → F × Option Bytes
  pub write : Bytes → Bytes → F → F × Bool
  pub chmod : Bytes → ℕ → F → F × Bool
  pub sync : Bytes → F → F × Bool
  pub close : Bytes → F → F × Bool
  pub rename : Bytes → Bytes → F → F × Bool
  pub remove : Bytes → F → F × Bool
  pub open_dir : Bytes → F → F × Bool
  pub sync_dir : Bytes → F → F × Bool
  pub close_dir : Bytes → F → F × Bool

abbrev pub temp_pattern : Bytes
temp_pattern = codes ".gobackup-*.yml.tmp"

-- AtomicWrite, each step behind the call that it looks at
module _ {F : Type 0} (fs : FileSystem F) (path : Bytes) where
  -- the deferred Close of the directory
  unfoldable pub dir_synced : F × Bool → F × Bool
  dir_synced (f, b) = ((fs.close_dir path f).0, b)

  unfoldable pub dir_opened : F × Bool → F × Bool
  unfolding dir_synced
  dir_opened (f, false) = (f, false)
  dir_opened (f, true) = dir_synced (fs.sync_dir path f)

  unfoldable pub renamed : F × Bool → F × Bool
  unfolding dir_opened
  renamed (f, false) = (f, false)
  renamed (f, true) = dir_opened (fs.open_dir path f)

  unfoldable pub closed : Bytes → F × Bool → F × Bool
  unfolding renamed
  closed tmp (f, false) = (f, false)
  closed tmp (f, true) = renamed (fs.rename tmp path f)

  unfoldable pub synced : Bytes → F × Bool → F × Bool
  unfolding closed
  synced tmp (f, false) = ((fs.close tmp f).0, false)
  synced tmp (f, true) = closed tmp (fs.close tmp f)

  unfoldable pub moded : Bytes → F × Bool → F × Bool
  unfolding synced
  moded tmp (f, false) = ((fs.close tmp f).0, false)
  moded tmp (f, true) = synced tmp (fs.sync tmp f)

  unfoldable pub written : Bytes → ℕ → F × Bool → F × Bool
  unfolding moded
  written tmp mode (f, false) = ((fs.close tmp f).0, false)
  written tmp mode (f, true) = moded tmp (fs.chmod tmp mode f)

  -- the deferred Remove of the temporary file
  unfoldable pub cleaned : Bytes → F × Bool → F × Bool
  cleaned tmp (f, b) = ((fs.remove tmp f).0, b)

  unfoldable pub temp_created : Bytes → ℕ → F × Option Bytes → F × Bool
  unfolding written cleaned
  temp_created text mode (f, none) = (f, false)
  temp_created text mode (f, some tmp) = cleaned tmp (written tmp mode (fs.write tmp text f))

  unfoldable pub atomic_write : Bytes → ℕ → F → F × Bool
  unfolding temp_created
  atomic_write text mode f = temp_created text mode (fs.create_temp path temp_pattern f)

-- `last` is empty before the first write
pub record FileWriter : Type 0 where
  pub path : Bytes
  pub last : Bytes

-- What Apply leaves and answers: `none` is an error, `some` tells whether a write happened.
abbrev pub Applied : Type 0 → Type 0
Applied F = F × FileWriter × Option Bool

module _ {F : Type 0} (fs : FileSystem F) (is_yaml : Bytes → Bool) where
  unfoldable pub stored : FileWriter → Bytes → F × Bool → Applied F
  stored w cfg (f, false) = (f, w, none)
  stored w cfg (f, true) = (f, record w { last = cfg }, some true)

  unfoldable pub apply : FileWriter → Bytes → F → Applied F
  unfolding stored
  apply w cfg f =
      if str_eq cfg w.last
      then (f, w, some false)
      else if is_yaml cfg
      then stored w cfg (atomic_write fs w.path cfg 0o644 f)
      else (f, w, none)
