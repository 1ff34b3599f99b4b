-- ===== src/Apply/Observed.antt =====
-- What a reader can see while a write goes on: the states between its calls.
use gobackup_docker.Base.{
  refl, inr, inl, ◌⊎◌, ◌≡◌, ◌∙◌, ℕ, Bool, true, false, Option, none, some, List, [], ◌∷◌, Bytes,
  All, str_eq,
}
use gobackup_docker.Apply.{
  temp_pattern, FileSystem, dir_synced, dir_opened, renamed, closed, synced, moded, written,
  cleaned, temp_created, atomic_write,
}
use gobackup_docker.Apply.Laws.{FileLaws, IsOther, AfterWrite, AfterRename}

-- a state, and the states before it, the last one first
abbrev pub History : Type 0 → Type 0
History F = F × List F

abbrev see : {F A : Type 0} → List F → F × A → History F × A
see log (f, a) = ((f, f ∷ log), a)

-- the file system that keeps its history
abbrev pub observed : {F : Type 0} → FileSystem F → FileSystem (History F)
observed fs = record {
  create_temp = λ p q s. see s.1 (fs.create_temp p q s.0);
  write = λ t text s. see s.1 (fs.write t text s.0);
  chmod = λ t mode s. see s.1 (fs.chmod t mode s.0);
  sync = λ t s. see s.1 (fs.sync t s.0);
  close = λ t s. see s.1 (fs.close t s.0);
  rename = λ t p s. see s.1 (fs.rename t p s.0);
  remove = λ t s. see s.1 (fs.remove t s.0);
  open_dir = λ p s. see s.1 (fs.open_dir p s.0);
  sync_dir = λ p s. see s.1 (fs.sync_dir p s.0);
  close_dir = λ p s. see s.1 (fs.close_dir p s.0);
}

module _ {F : Type 0} {fs : FileSystem F} {path : Bytes} (laws : FileLaws fs path)
    (before : Option Bytes) (text : Bytes) where
  -- a reader finds the whole old content or the whole new one
  abbrev pub IsWhole : F → Type 0
  IsWhole f = (laws.read path f ≡ before) ⊎ (laws.read path f ≡ some text)

  abbrev Seen : History F → Type 0
  Seen s = IsWhole s.0 × All IsWhole s.1

  see-Seen :
      {A : Type 0} (s : History F) (fa : F × A)
      → Seen s
      → laws.read path fa.0 ≡ laws.read path s.0
      → Seen (see s.1 fa).0
  see-Seen s (f, a) h e = let w : IsWhole f = rw e h.0 in (w, (w, h.1))

  dir_synced-Seen : (sr : History F × Bool) → Seen sr.0 → Seen (dir_synced (observed fs) path sr).0
  unfolding dir_synced
  dir_synced-Seen (s, b) h = see-Seen s (fs.close_dir path s.0) h (laws.close_dir_read s.0)

  dir_opened-Seen : (sr : History F × Bool) → Seen sr.0 → Seen (dir_opened (observed fs) path sr).0
  unfolding dir_opened
  dir_opened-Seen (s, false) h = h
  dir_opened-Seen (s, true) h =
      dir_synced-Seen (see s.1 (fs.sync_dir path s.0))
        (see-Seen s (fs.sync_dir path s.0) h (laws.sync_dir_read s.0))

  renamed-Seen : (sr : History F × Bool) → Seen sr.0 → Seen (renamed (observed fs) path sr).0
  unfolding renamed
  renamed-Seen (s, false) h = h
  renamed-Seen (s, true) h =
      dir_opened-Seen (see s.1 (fs.open_dir path s.0))
        (see-Seen s (fs.open_dir path s.0) h (laws.open_dir_read s.0))

  AfterRename-IsWhole :
      (s : F) (tmp : Option Bytes) (fr : F × Bool)
      → IsWhole s
      → tmp ≡ some text
      → AfterRename (laws.read path s) tmp (laws.read path fr.0) fr.1
      → IsWhole fr.0
  AfterRename-IsWhole s tmp (f, true) w e a = inr (a ∙ e)
  AfterRename-IsWhole s tmp (f, false) w e (inl a) = rw a w
  AfterRename-IsWhole s tmp (f, false) w e (inr a) = inr (a ∙ e)

  closed-Seen :
      (tmp : Bytes) (sr : History F × Bool)
      → Seen sr.0
      → laws.read tmp sr.0.0 ≡ some text
      → Seen (closed (observed fs) path tmp sr).0
  unfolding closed
  closed-Seen tmp (s, false) h t = h
  closed-Seen tmp (s, true) h t =
      let fr = fs.rename tmp path s.0 in
      let w = AfterRename-IsWhole s.0 (laws.read tmp s.0) fr h.0 t (laws.rename_read tmp s.0) in
      renamed-Seen (see s.1 fr) (w, (w, h.1))

  close-Seen : (tmp : Bytes) (s : History F) → Seen s → Seen (see s.1 (fs.close tmp s.0)).0
  close-Seen tmp s h = see-Seen s (fs.close tmp s.0) h (laws.close_read path tmp s.0)

  synced-Seen :
      (tmp : Bytes) (sr : History F × Bool)
      → Seen sr.0
      → laws.read tmp sr.0.0 ≡ some text
      → Seen (synced (observed fs) path tmp sr).0
  unfolding synced
  synced-Seen tmp (s, false) h t = close-Seen tmp s h
  synced-Seen tmp (s, true) h t =
      closed-Seen tmp (see s.1 (fs.close tmp s.0)) (close-Seen tmp s h)
        (laws.close_read tmp tmp s.0 ∙ t)

  moded-Seen :
      (tmp : Bytes) (sr : History F × Bool)
      → Seen sr.0
      → laws.read tmp sr.0.0 ≡ some text
      → Seen (moded (observed fs) path tmp sr).0
  unfolding moded
  moded-Seen tmp (s, false) h t = close-Seen tmp s h
  moded-Seen tmp (s, true) h t =
      synced-Seen tmp (see s.1 (fs.sync tmp s.0))
        (see-Seen s (fs.sync tmp s.0) h (laws.sync_read path tmp s.0))
        (laws.sync_read tmp tmp s.0 ∙ t)

  written-Seen :
      (tmp : Bytes) (mode : ℕ) (sr : History F × Bool)
      → Seen sr.0
      → AfterWrite text (laws.read tmp sr.0.0) sr.1
      → Seen (written (observed fs) path tmp mode sr).0
  unfolding written
  written-Seen tmp mode (s, false) h t = close-Seen tmp s h
  written-Seen tmp mode (s, true) h t =
      moded-Seen tmp (see s.1 (fs.chmod tmp mode s.0))
        (see-Seen s (fs.chmod tmp mode s.0) h (laws.chmod_read path tmp mode s.0))
        (laws.chmod_read tmp tmp mode s.0 ∙ t)

  cleaned-Seen :
      (tmp : Bytes) (sr : History F × Bool)
      → str_eq tmp path ≡ false
      → Seen sr.0
      → Seen (cleaned (observed fs) path tmp sr).0
  unfolding cleaned
  cleaned-Seen tmp (s, b) n h = see-Seen s (fs.remove tmp s.0) h (laws.remove_other tmp s.0 n)

  temp_created-Seen :
      (mode : ℕ) (sr : History F × Option Bytes)
      → Seen sr.0
      → IsOther path sr.1
      → Seen (temp_created (observed fs) path text mode sr).0
  unfolding temp_created
  temp_created-Seen mode (s, none) h n = h
  temp_created-Seen mode (s, some tmp) h n =
      let fr = fs.write tmp text s.0 in
      cleaned-Seen tmp (written (observed fs) path tmp mode (see s.1 fr)) n (
        written-Seen tmp mode (see s.1 fr) (see-Seen s fr h (laws.write_other tmp text s.0 n))
          (laws.write_done tmp text s.0))

-- In every state between the calls of AtomicWrite, and at its end, a reader finds under the path
-- the whole content that it had before or the whole new text, whichever call fails.
pub atomic_write_lem :
    {F : Type 0} {fs : FileSystem F} {path : Bytes} (laws : FileLaws fs path) (text : Bytes)
    (mode : ℕ) (f : F)
    → let s = (atomic_write (observed fs) path text mode (f, [])).0 in
      All (IsWhole laws (laws.read path f) text) (s.0 ∷ s.1)
unfolding atomic_write
atomic_write_lem {fs = fs} {path = path} laws text mode f =
    temp_created-Seen laws (laws.read path f) text mode
      (see [] (fs.create_temp path temp_pattern f))
      (see-Seen laws (laws.read path f) text (f, []) (fs.create_temp path temp_pattern f)
        (inl refl, tt) (laws.temp_read f))
      (laws.temp_other f)
