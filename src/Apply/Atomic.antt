-- ===== src/Apply/Atomic.antt =====
-- What a write leaves under the path.
use gobackup_docker.Base.{
  refl, str_eq_iff, Bool-cases, inr, ◌∙◌, inl, ◌⊎◌, ◌≡◌, ℕ, Bool, true, false, Option, none, some,
  [], Bytes, str_eq,
}
use gobackup_docker.Apply.{
  temp_pattern, FileSystem, FileWriter, Applied, dir_synced, dir_opened, renamed, closed, synced,
  moded, written, cleaned, temp_created, atomic_write, stored, apply,
}
use gobackup_docker.Apply.Laws.{FileLaws, IsOther, AfterWrite, AfterRename}

module _ {F : Type 0} {fs : FileSystem F} {path : Bytes} (laws : FileLaws fs path) where
  -- After success the path has the text, after an error the text or what it had.
  abbrev pub Ends : Option Bytes → Bytes → F × Bool → Type 0
  Ends before text (f, true) = laws.read path f ≡ some text
  Ends before text (f, false) = (laws.read path f ≡ before) ⊎ (laws.read path f ≡ some text)

  module _ (before : Option Bytes) (text : Bytes) where
    dir_synced-Ends :
        (fr : F × Bool) → laws.read path fr.0 ≡ some text → Ends before text (dir_synced fs path fr)
    unfolding dir_synced
    dir_synced-Ends (f, true) e = laws.close_dir_read f ∙ e
    dir_synced-Ends (f, false) e = inr (laws.close_dir_read f ∙ e)

    dir_opened-Ends :
        (fr : F × Bool) → laws.read path fr.0 ≡ some text → Ends before text (dir_opened fs path fr)
    unfolding dir_opened
    dir_opened-Ends (f, true) e = dir_synced-Ends (fs.sync_dir path f) (laws.sync_dir_read f ∙ e)
    dir_opened-Ends (f, false) e = inr e

    renamed-Ends :
        (tmp : Option Bytes) (fr : F × Bool)
        → AfterRename before tmp (laws.read path fr.0) fr.1
        → tmp ≡ some text
        → Ends before text (renamed fs path fr)
    unfolding renamed
    renamed-Ends tmp (f, true) h e =
        dir_opened-Ends (fs.open_dir path f) (laws.open_dir_read f ∙ h ∙ e)
    renamed-Ends tmp (f, false) (inl h) e = inl h
    renamed-Ends tmp (f, false) (inr h) e = inr (h ∙ e)

    closed-Ends :
        (tmp : Bytes) (fr : F × Bool)
        → laws.read path fr.0 ≡ before
        → laws.read tmp fr.0 ≡ some text
        → Ends before text (closed fs path tmp fr)
    unfolding closed
    closed-Ends tmp (f, false) b t = inl b
    closed-Ends tmp (f, true) b t =
        renamed-Ends (laws.read tmp f) (fs.rename tmp path f) (rw b at (laws.rename_read tmp f)) t

    synced-Ends :
        (tmp : Bytes) (fr : F × Bool)
        → laws.read path fr.0 ≡ before
        → laws.read tmp fr.0 ≡ some text
        → Ends before text (synced fs path tmp fr)
    unfolding synced
    synced-Ends tmp (f, false) b t = inl (laws.close_read path tmp f ∙ b)
    synced-Ends tmp (f, true) b t =
        closed-Ends tmp (fs.close tmp f) (laws.close_read path tmp f ∙ b)
          (laws.close_read tmp tmp f ∙ t)

    moded-Ends :
        (tmp : Bytes) (fr : F × Bool)
        → laws.read path fr.0 ≡ before
        → laws.read tmp fr.0 ≡ some text
        → Ends before text (moded fs path tmp fr)
    unfolding moded
    moded-Ends tmp (f, false) b t = inl (laws.close_read path tmp f ∙ b)
    moded-Ends tmp (f, true) b t =
        synced-Ends tmp (fs.sync tmp f) (laws.sync_read path tmp f ∙ b)
          (laws.sync_read tmp tmp f ∙ t)

    written-Ends :
        (tmp : Bytes) (mode : ℕ) (fr : F × Bool)
        → laws.read path fr.0 ≡ before
        → AfterWrite text (laws.read tmp fr.0) fr.1
        → Ends before text (written fs path tmp mode fr)
    unfolding written
    written-Ends tmp mode (f, false) b t = inl (laws.close_read path tmp f ∙ b)
    written-Ends tmp mode (f, true) b t =
        moded-Ends tmp (fs.chmod tmp mode f) (laws.chmod_read path tmp mode f ∙ b)
          (laws.chmod_read tmp tmp mode f ∙ t)

    cleaned-Ends :
        (tmp : Bytes) (fr : F × Bool)
        → str_eq tmp path ≡ false
        → Ends before text fr
        → Ends before text (cleaned fs path tmp fr)
    unfolding cleaned
    cleaned-Ends tmp (f, true) n e = laws.remove_other tmp f n ∙ e
    cleaned-Ends tmp (f, false) n (inl e) = inl (laws.remove_other tmp f n ∙ e)
    cleaned-Ends tmp (f, false) n (inr e) = inr (laws.remove_other tmp f n ∙ e)

    temp_created-Ends :
        (mode : ℕ) (fr : F × Option Bytes)
        → IsOther path fr.1
        → laws.read path fr.0 ≡ before
        → Ends before text (temp_created fs path text mode fr)
    unfolding temp_created
    temp_created-Ends mode (f, none) n b = inl b
    temp_created-Ends mode (f, some tmp) n b =
        cleaned-Ends tmp (written fs path tmp mode (fs.write tmp text f)) n (
          written-Ends tmp mode (fs.write tmp text f) (laws.write_other tmp text f n ∙ b)
            (laws.write_done tmp text f))

  pub atomic_write-Ends :
      (text : Bytes) (mode : ℕ) (f : F)
      → Ends (laws.read path f) text (atomic_write fs path text mode f)
  unfolding atomic_write
  atomic_write-Ends text mode f =
      temp_created-Ends (laws.read path f) text mode (fs.create_temp path temp_pattern f)
        (laws.temp_other f) (laws.temp_read f)

-- the file holds what the writer wrote last, if it wrote anything
abbrev pub IsCurrent :
    {F : Type 0} {fs : FileSystem F} (w : FileWriter) → FileLaws fs w.path → F → Type 0
IsCurrent w laws f = (w.last ≡ []) ⊎ (laws.read w.path f ≡ some w.last)

module _ {F : Type 0} {fs : FileSystem F} (w : FileWriter) (laws : FileLaws fs w.path) where
  -- A write leaves the new text in the file and in the writer; where none is needed nothing
  -- changes; an error leaves the writer alone, and in the file its old text or the new.
  abbrev pub AfterApply : F → Bytes → Applied F → Type 0
  AfterApply f cfg (f', w', some true) =
      (laws.read w.path f' ≡ some cfg) × (w' ≡ record w { last = cfg })
  AfterApply f cfg (f', w', some false) =
      (f' ≡ f) × (w' ≡ w) × ((cfg ≡ []) ⊎ (laws.read w.path f' ≡ some cfg))
  AfterApply f cfg (f', w', none) =
      (w' ≡ w) × ((laws.read w.path f' ≡ laws.read w.path f) ⊎ (laws.read w.path f' ≡ some cfg))

  module _ (is_yaml : Bytes → Bool) where
    stored_lem :
        (f : F) (cfg : Bytes) (fr : F × Bool)
        → Ends laws (laws.read w.path f) cfg fr
        → AfterApply f cfg (stored fs is_yaml w cfg fr)
    unfolding stored
    stored_lem f cfg (f', true) e = (e, refl)
    stored_lem f cfg (f', false) e = (refl, e)

    -- From a state in which the file holds what the writer wrote last, Apply leaves the new text
    -- in the file and in the writer, or nothing is to do and nothing changes, or it fails, leaving
    -- the writer alone and in the file the text it had or the new one.
    pub apply_lem :
        (cfg : Bytes) (f : F) → IsCurrent w laws f → AfterApply f cfg (apply fs is_yaml w cfg f)
    unfolding apply
    apply_lem cfg f c = elim (Bool-cases (str_eq cfg w.last)) [
      | inl y ↦
          let e = (str_eq_iff cfg w.last).0 y in
          rw y (refl, refl, elim c [ inl n ↦ inl (e ∙ n) | inr h ↦ inr (rw e h) ])
      | inr n ↦ rw n (elim (Bool-cases (is_yaml cfg)) [
        | inl y ↦ rw y (stored_lem f cfg _ (atomic_write-Ends laws cfg 0o644 f))
        | inr k ↦ rw k (refl, inl refl)
      ])
    ]
