-- ===== src/Pipeline/Manage/Replace/Recovery.antt =====
-- What a run of the replacement leaves, whatever call fails, and that it comes to its end.
use gobackup_docker.Base.{
  Option-cases, sym, str_eq_iff, ◌∙◌, refl, inr, inl, ◌⊎◌, arith, ◌≡◌, Bool, true, false, Option,
  none, some, Bytes, str_eq, is_empty,
}
use gobackup_docker.Base.Dict.{Dict, get}
use gobackup_docker.Pipeline.Docker.{InspectResult}
use gobackup_docker.Pipeline.Manage.{
  or_text, replaces_label, gobackup_component_label, gobackup_component_value,
}
use gobackup_docker.Pipeline.Manage.Replace.{
  PendingReplacement, is_valid_pending, is_replacement, Failure, not_found, not_modified, other,
  Result, ok, failed, Manager, cleared, started, created, removed, stopped, inspected,
  resume_replacement,
}

-- A container that the recovery takes for the replacement.
abbrev pub IsReplacement : PendingReplacement → InspectResult → Type 0
IsReplacement p c =
    (is_replacement p c.labels ≡ true) × (str_eq c.id p.old_id ≡ false) × (is_empty c.id ≡ false)

-- What may stand under the name of the engine: nothing, the old container or the replacement.
abbrev pub Resumable : PendingReplacement → Option InspectResult → Type 0
Resumable p none = Unit
Resumable p (some c) = (c.id ≡ p.old_id) ⊎ IsReplacement p c

-- the container under the name, if there is one, is that of the id
abbrev pub At : Bytes → Option InspectResult → Type 0
At id none = Unit
At id (some c) = c.id ≡ id

-- each key of the one has its value in the other, which may have more
abbrev pub HasLabels : Dict Bytes → Dict Bytes → Type 0
HasLabels asked shown = (k v : Bytes) → get k asked ≡ some v → get k shown ≡ some v

-- the container was made from the spec: it has its labels and an id of its own
abbrev pub IsBuilt : PendingReplacement → InspectResult → Type 0
IsBuilt p c =
    HasLabels p.spec.labels c.labels × (str_eq c.id p.old_id ≡ false) × (is_empty c.id ≡ false)

-- a label that has a value that is not empty has it in more labels too
label_kept :
    (asked shown : Dict Bytes) (k v : Bytes)
    → HasLabels asked shown
    → or_text (get k asked) ≡ v
    → is_empty v ≡ false
    → or_text (get k shown) ≡ v
label_kept asked shown k v h e n = elim (Option-cases (get k asked)) [
  | inl x ↦ cc (rw x at e, n)
  | inr (u, x) ↦ rw (h k u x) (rw x at e)
]

abbrev pub Told : Option InspectResult → Result InspectResult → Type 0
Told h (ok c) = h ≡ some c
Told h (failed not_found) = h ≡ none
Told h (failed not_modified) = Unit
Told h (failed other) = Unit

abbrev pub AfterRemove : Bytes → Option InspectResult → Option Failure → Type 0
AfterRemove id h none = h ≡ none
AfterRemove id h (some not_found) = h ≡ none
AfterRemove id h (some not_modified) = At id h
AfterRemove id h (some other) = At id h

abbrev pub BuiltOrNone : PendingReplacement → Option InspectResult → Type 0
BuiltOrNone p none = Unit
BuiltOrNone p (some c) = IsBuilt p c

abbrev pub AfterCreate : PendingReplacement → Option InspectResult → Result Bytes → Type 0
AfterCreate p h (ok id) = (c : InspectResult) × (h ≡ some c) × (c.id ≡ id) × IsBuilt p c
AfterCreate p h (failed e) = BuiltOrNone p h

abbrev pub AfterClear : Option Bytes → Option Bytes → Bool → Type 0
AfterClear before after true = after ≡ none
AfterClear before after false = after ≡ before

-- What is relied on of Docker and of the file system: `holds` is the container under the name of
-- the engine, `file` what the record's file holds. No call but the ones of the record touches the
-- file; Stop and Remove touch no container but the one they are given; Create, under a free name,
-- makes a container of the spec with a new id, perhaps with its answer lost.
pub record Daemon {W : Type 0} (mgr : Manager W) (p : PendingReplacement) : Type 0 where
  pub holds : W → Option InspectResult
  pub file : W → Option Bytes
  pub inspect_holds : (w : W) → holds (mgr.inspect p.spec.name w).0 ≡ holds w
  pub inspect_tells : (w : W) → Told (holds w) (mgr.inspect p.spec.name w).1
  pub stop_at : (id : Bytes) (w : W) → At id (holds w) → At id (holds (mgr.stop id w).0)
  pub remove_at :
      (id : Bytes) (w : W)
      → At id (holds w)
      → AfterRemove id (holds (mgr.remove id w).0) (mgr.remove id w).1
  pub create_holds :
      (w : W)
      → holds w ≡ none
      → AfterCreate p (holds (mgr.create p.spec w).0) (mgr.create p.spec w).1
  pub start_holds : (id : Bytes) (w : W) → holds (mgr.start id w).0 ≡ holds w
  pub clear_holds : (w : W) → holds (mgr.remove_record w).0 ≡ holds w
  pub inspect_file : (w : W) → file (mgr.inspect p.spec.name w).0 ≡ file w
  pub stop_file : (id : Bytes) (w : W) → file (mgr.stop id w).0 ≡ file w
  pub remove_file : (id : Bytes) (w : W) → file (mgr.remove id w).0 ≡ file w
  pub create_file : (w : W) → file (mgr.create p.spec w).0 ≡ file w
  pub start_file : (id : Bytes) (w : W) → file (mgr.start id w).0 ≡ file w
  pub clear_file :
      (w : W) → AfterClear (file w) (file (mgr.remove_record w).0) (mgr.remove_record w).1

module _ {W : Type 0} {mgr : Manager W} {p : PendingReplacement} (d : Daemon mgr p) where
  -- After an error the name is in one of the states that a next run starts from, and the record is
  -- still there; after success the replacement is there and the record is not.
  abbrev pub Outcome : Option Bytes → W × Option Bytes → Type 0
  Outcome saved (w, none) = Resumable p (d.holds w) × (d.file w ≡ saved)
  Outcome saved (w, some id) =
      ((c : InspectResult) × (d.holds w ≡ some c) × (c.id ≡ id) × IsReplacement p c)
      × (d.file w ≡ none)

  module _ (valid : is_valid_pending p ≡ true) (saved : Option Bytes) where
    built_lem : (c : InspectResult) → IsBuilt p c → IsReplacement p c
    unfolding is_valid_pending is_replacement
    built_lem c (l, n, i) =
        let kept = label_kept p.spec.labels c.labels in
        let replaces : or_text (get replaces_label c.labels) ≡ p.old_id =
          kept replaces_label p.old_id l
            (ground (arith, str_eq_iff (or_text (get replaces_label p.spec.labels)) p.old_id))
            (ground arith) in
        let component : or_text (get gobackup_component_label c.labels) ≡ gobackup_component_value =
          kept gobackup_component_label gobackup_component_value l
            (ground (
              arith,
              str_eq_iff (or_text (get gobackup_component_label p.spec.labels))
                  gobackup_component_value,
            ))
            refl in
        (
          rw
              (
                replaces,
                component,
                (str_eq_iff p.old_id p.old_id).1 refl,
                (str_eq_iff gobackup_component_value gobackup_component_value).1 refl,
              )
              refl,
          n,
          i,
        )

    built_Resumable : (h : Option InspectResult) → BuiltOrNone p h → Resumable p h
    built_Resumable none b = tt
    built_Resumable (some c) b = inr (built_lem c b)

    At-Resumable : (h : Option InspectResult) → At p.old_id h → Resumable p h
    At-Resumable none a = tt
    At-Resumable (some c) a = inl a

    cleared_lem :
        (c : InspectResult) (wr : W × Bool)
        → d.holds wr.0 ≡ some c
        → IsReplacement p c
        → AfterClear saved (d.file wr.0) wr.1
        → Outcome saved (cleared mgr p c.id wr)
    unfolding cleared
    cleared_lem c (w, true) h r f = ((c, h, refl, r), f)
    cleared_lem c (w, false) h r f = (rw h (inr r), f)

    clear_lem :
        (c : InspectResult) (w : W)
        → d.holds w ≡ some c
        → IsReplacement p c
        → d.file w ≡ saved
        → Outcome saved (cleared mgr p c.id (mgr.remove_record w))
    clear_lem c w h r f =
        cleared_lem c (mgr.remove_record w) (d.clear_holds w ∙ h) r (rw f at (d.clear_file w))

    started_lem :
        (c : InspectResult) (wr : W × Option Failure)
        → d.holds wr.0 ≡ some c
        → IsReplacement p c
        → d.file wr.0 ≡ saved
        → Outcome saved (started mgr p c.id wr)
    unfolding started
    started_lem c (w, none) h r f = clear_lem c w h r f
    started_lem c (w, some not_modified) h r f = clear_lem c w h r f
    started_lem c (w, some not_found) h r f = (rw h (inr r), f)
    started_lem c (w, some other) h r f = (rw h (inr r), f)

    start_lem :
        (c : InspectResult) (w : W)
        → d.holds w ≡ some c
        → IsReplacement p c
        → d.file w ≡ saved
        → Outcome saved (started mgr p c.id (mgr.start c.id w))
    start_lem c w h r f =
        started_lem c (mgr.start c.id w) (d.start_holds c.id w ∙ h) r (d.start_file c.id w ∙ f)

    created_lem :
        (wr : W × Result Bytes)
        → AfterCreate p (d.holds wr.0) wr.1
        → d.file wr.0 ≡ saved
        → Outcome saved (created mgr p wr)
    unfolding created
    created_lem (w, ok id) (c, h, e, b) f = rw (sym e) (start_lem c w h (built_lem c b) f)
    created_lem (w, failed e) b f = (built_Resumable (d.holds w) b, f)

    create_lem :
        (w : W)
        → d.holds w ≡ none
        → d.file w ≡ saved
        → Outcome saved (created mgr p (mgr.create p.spec w))
    create_lem w h f = created_lem (mgr.create p.spec w) (d.create_holds w h) (d.create_file w ∙ f)

    removed_lem :
        (wr : W × Option Failure)
        → AfterRemove p.old_id (d.holds wr.0) wr.1
        → d.file wr.0 ≡ saved
        → Outcome saved (removed mgr p wr)
    unfolding removed
    removed_lem (w, none) h f = create_lem w h f
    removed_lem (w, some not_found) h f = create_lem w h f
    removed_lem (w, some not_modified) h f = (At-Resumable (d.holds w) h, f)
    removed_lem (w, some other) h f = (At-Resumable (d.holds w) h, f)

    remove_lem :
        (w : W)
        → At p.old_id (d.holds w)
        → d.file w ≡ saved
        → Outcome saved (removed mgr p (mgr.remove p.old_id w))
    remove_lem w a f =
        removed_lem (mgr.remove p.old_id w) (d.remove_at p.old_id w a)
          (d.remove_file p.old_id w ∙ f)

    stopped_lem :
        (wr : W × Option Failure)
        → At p.old_id (d.holds wr.0)
        → d.file wr.0 ≡ saved
        → Outcome saved (stopped mgr p p.old_id wr)
    unfolding stopped
    stopped_lem (w, none) a f = remove_lem w a f
    stopped_lem (w, some not_found) a f = remove_lem w a f
    stopped_lem (w, some not_modified) a f = remove_lem w a f
    stopped_lem (w, some other) a f = (At-Resumable (d.holds w) a, f)

    stop_lem :
        (w : W)
        → At p.old_id (d.holds w)
        → d.file w ≡ saved
        → Outcome saved (stopped mgr p p.old_id (mgr.stop p.old_id w))
    stop_lem w a f =
        stopped_lem (mgr.stop p.old_id w) (d.stop_at p.old_id w a) (d.stop_file p.old_id w ∙ f)

    found_lem :
        (w : W) (c : InspectResult)
        → d.holds w ≡ some c
        → Resumable p (some c)
        → d.file w ≡ saved
        → Outcome saved (inspected mgr p (w, ok c))
    unfolding inspected
    found_lem w c h (inl e) f =
        let same = (str_eq_iff c.id p.old_id).1 e in rw (same, e) (stop_lem w (rw h e) f)
    found_lem w c h (inr (l, n, i)) f = rw (n, l, i) (start_lem c w h (l, n, i) f)

    inspected_lem :
        (wr : W × Result InspectResult)
        → Told (d.holds wr.0) wr.1
        → Resumable p (d.holds wr.0)
        → d.file wr.0 ≡ saved
        → Outcome saved (inspected mgr p wr)
    unfolding inspected
    inspected_lem (w, ok c) h r f = found_lem w c h (rw h at r) f
    inspected_lem (w, failed not_found) h r f = create_lem w h f
    inspected_lem (w, failed not_modified) h r f = (r, f)
    inspected_lem (w, failed other) h r f = (r, f)

  -- From a state in which the name of the engine is free, or held by the old container or by its
  -- replacement, and for a valid record: a run that ends in an error leaves such a state and the
  -- record in its file, whichever call failed; one that succeeds leaves the replacement under the
  -- name, its id returned, and no record.
  pub resume_lem :
      (w : W)
      → is_valid_pending p ≡ true
      → Resumable p (d.holds w)
      → Outcome (d.file w) (resume_replacement mgr p w)
  unfolding resume_replacement
  resume_lem w valid r =
      inspected_lem valid (d.file w) (mgr.inspect p.spec.name w)
        (rw (d.inspect_holds w) (d.inspect_tells w)) (rw (d.inspect_holds w) r) (d.inspect_file w)
