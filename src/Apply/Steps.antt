-- ===== src/Apply/Steps.antt =====
-- A relation that every call of the file system keeps is kept by a write.
use gobackup_docker.Base.{◌≡◌, ℕ, Bool, true, false, Option, none, some, Bytes, str_eq, if-holds}
use gobackup_docker.Apply.{
  temp_pattern, FileSystem, FileWriter, Applied, dir_synced, dir_opened, renamed, closed, synced,
  moded, written, cleaned, temp_created, atomic_write, stored, apply,
}

-- a temporary file is one of those
abbrev pub TempApart : (Bytes → Bool) → Option Bytes → Type 0
TempApart apart none = Unit
TempApart apart (some t) = apart t ≡ true

-- The steps of a file system on some of the files stay in the relation.
pub record Steps {F : Type 0} (fs : FileSystem F) (apart : Bytes → Bool) (R : F → F → Type 0)
    : Type 0 where
  pub same : (f : F) → R f f
  pub then_ : (f g h : F) → R f g → R g h → R f h
  pub temp_apart : (p q : Bytes) (f : F) → TempApart apart (fs.create_temp p q f).1
  pub create_temp : (p q : Bytes) (f : F) → R f (fs.create_temp p q f).0
  pub write : (t text : Bytes) (f : F) → apart t ≡ true → R f (fs.write t text f).0
  pub chmod : (t : Bytes) (mode : ℕ) (f : F) → R f (fs.chmod t mode f).0
  pub sync : (t : Bytes) (f : F) → R f (fs.sync t f).0
  pub close : (t : Bytes) (f : F) → R f (fs.close t f).0
  pub rename : (t p : Bytes) (f : F) → apart t ≡ true → apart p ≡ true → R f (fs.rename t p f).0
  pub remove : (t : Bytes) (f : F) → apart t ≡ true → R f (fs.remove t f).0
  pub open_dir : (p : Bytes) (f : F) → R f (fs.open_dir p f).0
  pub sync_dir : (p : Bytes) (f : F) → R f (fs.sync_dir p f).0
  pub close_dir : (p : Bytes) (f : F) → R f (fs.close_dir p f).0

module _ {F : Type 0} {fs : FileSystem F} {apart : Bytes → Bool} {R : F → F → Type 0}
    (s : Steps fs apart R) (path : Bytes) (a : apart path ≡ true) (f : F) where
  -- what a call leaves of `g` is still in the relation
  after : (g h : F) → R f g → R g h → R f h
  after g h = s.then_ f g h

  dir_synced_step : (fr : F × Bool) → R f fr.0 → R f (dir_synced fs path fr).0
  unfolding dir_synced
  dir_synced_step (g, b) r = after g _ r (s.close_dir path g)

  dir_opened_step : (fr : F × Bool) → R f fr.0 → R f (dir_opened fs path fr).0
  unfolding dir_opened
  dir_opened_step (g, false) r = r
  dir_opened_step (g, true) r =
      dir_synced_step (fs.sync_dir path g) (after g _ r (s.sync_dir path g))

  renamed_step : (fr : F × Bool) → R f fr.0 → R f (renamed fs path fr).0
  unfolding renamed
  renamed_step (g, false) r = r
  renamed_step (g, true) r = dir_opened_step (fs.open_dir path g) (after g _ r (s.open_dir path g))

  closed_step :
      (t : Bytes) (fr : F × Bool) → apart t ≡ true → R f fr.0 → R f (closed fs path t fr).0
  unfolding closed
  closed_step t (g, false) k r = r
  closed_step t (g, true) k r =
      renamed_step (fs.rename t path g) (after g _ r (s.rename t path g k a))

  synced_step :
      (t : Bytes) (fr : F × Bool) → apart t ≡ true → R f fr.0 → R f (synced fs path t fr).0
  unfolding synced
  synced_step t (g, false) k r = after g _ r (s.close t g)
  synced_step t (g, true) k r = closed_step t (fs.close t g) k (after g _ r (s.close t g))

  moded_step : (t : Bytes) (fr : F × Bool) → apart t ≡ true → R f fr.0 → R f (moded fs path t fr).0
  unfolding moded
  moded_step t (g, false) k r = after g _ r (s.close t g)
  moded_step t (g, true) k r = synced_step t (fs.sync t g) k (after g _ r (s.sync t g))

  written_step :
      (t : Bytes) (mode : ℕ) (fr : F × Bool)
      → apart t ≡ true
      → R f fr.0
      → R f (written fs path t mode fr).0
  unfolding written
  written_step t mode (g, false) k r = after g _ r (s.close t g)
  written_step t mode (g, true) k r =
      moded_step t (fs.chmod t mode g) k (after g _ r (s.chmod t mode g))

  cleaned_step :
      (t : Bytes) (fr : F × Bool) → apart t ≡ true → R f fr.0 → R f (cleaned fs path t fr).0
  unfolding cleaned
  cleaned_step t (g, b) k r = after g _ r (s.remove t g k)

  temp_created_step :
      (text : Bytes) (mode : ℕ) (fr : F × Option Bytes)
      → TempApart apart fr.1
      → R f fr.0
      → R f (temp_created fs path text mode fr).0
  unfolding temp_created
  temp_created_step text mode (g, none) k r = r
  temp_created_step text mode (g, some t) k r =
      cleaned_step t (written fs path t mode (fs.write t text g)) k
        (written_step t mode (fs.write t text g) k (after g _ r (s.write t text g k)))

  pub atomic_write_step : (text : Bytes) (mode : ℕ) → R f (atomic_write fs path text mode f).0
  unfolding atomic_write
  atomic_write_step text mode =
      temp_created_step text mode (fs.create_temp path temp_pattern f)
        (s.temp_apart path temp_pattern f) (s.create_temp path temp_pattern f)

module _ {F : Type 0} {fs : FileSystem F} {apart : Bytes → Bool} {R : F → F → Type 0}
    (s : Steps fs apart R) (is_yaml : Bytes → Bool) (w : FileWriter) (a : apart w.path ≡ true)
    (cfg : Bytes) (f : F) where
  abbrev Stays : Applied F → Type 0
  Stays r = R f r.0

  stored_step : (fr : F × Bool) → R f fr.0 → Stays (stored fs is_yaml w cfg fr)
  unfolding stored
  stored_step (g, true) r = r
  stored_step (g, false) r = r

  pub apply_step : R f (apply fs is_yaml w cfg f).0
  unfolding apply
  apply_step =
      if-holds Stays (str_eq cfg w.last) (f, w, some false) _ (s.same f)
        (if-holds Stays (is_yaml cfg) (stored fs is_yaml w cfg (atomic_write fs w.path cfg 0o644 f))
          (f, w, none) (stored_step _ (atomic_write_step s w.path a f cfg 0o644)) (s.same f))
