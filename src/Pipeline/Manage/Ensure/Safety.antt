-- ===== src/Pipeline/Manage/Ensure/Safety.antt =====
-- What a run leaves of the containers and the record, whatever call fails.
use gobackup_docker.Base.{
  arith, inr, Bool-cases, sym, inl, refl, ◌∙◌, ◌≡◌, Bool, true, false, Option, none, some, List, [],
  Bytes,
}
use gobackup_docker.Container.{Config}
use gobackup_docker.Pipeline.Docker.{Container, InspectResult}
use gobackup_docker.Pipeline.Manage.{
  Json, EngineExtras, build_gobackup_spec, engine_spec, needs_recreate,
}
use gobackup_docker.Pipeline.Manage.Replace.{
  PendingReplacement, is_valid_pending, Result, ok, failed, resume_replacement,
}
use gobackup_docker.Pipeline.Manage.Replace.Recovery.{Resumable}
use gobackup_docker.Pipeline.Manage.Ensure.{
  RecordRead, missing, unreadable, content, Host, Codec, Lookup, lookup_failed, absent, present,
  engine_id, shown, inspect_engine, listed, find_gobackup_container, recreated, persisted, encoded,
  pending_of, recreate, desired_spec, compared, synced, no_extras, sync_engine, recovered, decoded,
  record_read, ensure_gobackup_container,
}
use gobackup_docker.Pipeline.Manage.Ensure.Laws.{
  mistaken, ReadTells, AfterWrite, HostLaws, holds, Saved, Leaves, untouched, pending, replaced,
  Leaves-trans, Leaves-refl, resume-Leaves,
}

module _ {W : Type 0} {host : Host W} {codec : Codec} (laws : HostLaws host codec) where
  -- what the search for the engine tells of the name under which it stands
  abbrev Tells : Lookup → W → Type 0
  Tells lookup_failed w = Unit
  Tells absent w = Unit
  Tells (present c) w = laws.holds c.name w ≡ some c

  abbrev Finds : W → W × Lookup → Type 0
  Finds w wl = Leaves laws w wl.0 × Tells wl.1 wl.0

  shown-Finds :
      (w : W) (wr : W × Result InspectResult)
      → Leaves laws w wr.0
      → ((c : InspectResult) → wr.1 ≡ ok c → Tells (present c) wr.0)
      → Finds w (shown host wr)
  unfolding shown
  shown-Finds w (w', ok info) l t = (l, t info refl)
  shown-Finds w (w', failed e) l t = (l, tt)

  inspect_engine-Finds : (w : W) (o : Option Bytes) → Finds w (inspect_engine host w o)
  unfolding inspect_engine
  inspect_engine-Finds w none = (Leaves-refl laws w, tt)
  inspect_engine-Finds w (some id) =
      shown-Finds w (host.manager.inspect id w)
        (untouched (λ n. laws.show_holds n id w) (laws.show_file id w))
        (λ c e. laws.show_holds c.name id w ∙ laws.show_tells id w c e)

  listed-Finds :
      (w : W) (wr : W × Result (List Container)) → Leaves laws w wr.0 → Finds w (listed host wr)
  unfolding listed
  listed-Finds w (w', ok containers) l =
      let f = inspect_engine-Finds w' (engine_id containers) in (Leaves-trans laws l f.0, f.1)
  listed-Finds w (w', failed e) l = (l, tt)

  find-Finds : (w : W) → Finds w (find_gobackup_container host w)
  unfolding find_gobackup_container
  find-Finds w =
      listed-Finds w (host.list_all w) (untouched (λ n. laws.list_holds n w) (laws.list_file w))

  module _ (json : Json) (cfg : Config) (extras : EngineExtras) where
    recreated-Leaves :
        (w : W) (wr : W × Option Bytes)
        → Leaves laws w wr.0
        → Leaves laws w (recreated host codec json cfg extras wr).0
    unfolding recreated
    recreated-Leaves w (w', none) l = l
    recreated-Leaves w (w', some id) l = l

    persisted-Leaves :
        (p : PendingReplacement) (t : Bytes) (w : W) (wr : W × Bool)
        → codec.decode t ≡ some p
        → is_valid_pending p ≡ true
        → ((n : Bytes) → laws.holds n wr.0 ≡ laws.holds n w)
        → AfterWrite t (laws.file w) (laws.file wr.0) wr.1
        → Resumable p (holds laws p w)
        → Leaves laws w (persisted host codec json cfg extras p wr).0
    unfolding persisted
    persisted-Leaves p t w (w', true) d v k f r =
        let s : Saved laws p w' = record { text = t; saved = f; reads = d } in
        let r' : Resumable p (holds laws p w') = rw (k p.spec.name) r in
        recreated-Leaves w _
          (Leaves-trans laws (pending p s v r') (resume-Leaves laws p w' s v (λ pl. r')))
    persisted-Leaves p t w (w', false) d v k (inl f) r = untouched k f
    persisted-Leaves p t w (w', false) d v k (inr f) r =
        pending p (record { text = t; saved = f; reads = d }) v (rw (k p.spec.name) r)

    encoded-Leaves :
        (p : PendingReplacement) (w : W) (o : Option Bytes)
        → codec.encode p ≡ o
        → is_valid_pending p ≡ true
        → Resumable p (holds laws p w)
        → Leaves laws w (encoded host codec json cfg extras p w o).0
    unfolding encoded
    encoded-Leaves p w none e v r = Leaves-refl laws w
    encoded-Leaves p w (some t) e v r =
        persisted-Leaves p t w (host.write_record t w) (laws.decode-encode p t e) v
          (λ n. laws.write_holds n t w) (laws.write_file t w) r

    recreate-Leaves :
        (w : W) (p : PendingReplacement)
        → Resumable p (holds laws p w)
        → Leaves laws w (recreate host codec json cfg extras w p).0
    unfolding recreate
    recreate-Leaves w p r = elim (Bool-cases (is_valid_pending p)) [
      | inl v ↦ rw v (encoded-Leaves p w (codec.encode p) refl v r)
      | inr m ↦ rw m (Leaves-refl laws w)
    ]

    compared-Leaves :
        (id : Bytes) (w : W) (c : InspectResult)
        → Tells (present c) w
        → Leaves laws w (compared host codec json cfg extras id w c).0
    unfolding compared engine_spec build_gobackup_spec
    compared-Leaves id w c t =
        let spec = desired_spec host codec json cfg extras c in
        let p = pending_of host codec json cfg extras c spec in
        elim (Bool-cases (needs_recreate c spec extras.env_vars)) [
          | inl y ↦ rw y (recreate-Leaves w p (rw t (inl refl)))
          | inr n ↦ rw n (Leaves-refl laws w)
        ]

    synced-Leaves :
        (id : Bytes) (w : W) (wl : W × Lookup)
        → Finds w wl
        → Leaves laws w (synced host codec json cfg extras id wl).0
    unfolding synced
    synced-Leaves id w (w', lookup_failed) f = f.0
    synced-Leaves id w (w', absent) f = f.0
    synced-Leaves id w (w', present c) f = Leaves-trans laws f.0 (compared-Leaves id w' c f.1)

    sync_engine-Leaves :
        (id : Bytes) (w : W) → Leaves laws w (sync_engine host codec json cfg extras id w).0
    unfolding sync_engine
    sync_engine-Leaves id w = elim (Bool-cases (no_extras host codec json cfg extras)) [
      | inl y ↦ rw y (Leaves-refl laws w)
      | inr n ↦ rw n (synced-Leaves id w (find_gobackup_container host w) (find-Finds w))
    ]

    recovered-Leaves :
        (w : W) (wr : W × Option Bytes)
        → Leaves laws w wr.0
        → Leaves laws w (recovered host codec json cfg extras wr).0
    unfolding recovered
    recovered-Leaves w (w', none) l = l
    recovered-Leaves w (w', some id) l = Leaves-trans laws l (sync_engine-Leaves id w')

  -- a saved valid record of an engine with a plain name is one from which a run can start
  abbrev pub IsConsistent : W → Type 0
  IsConsistent w =
      (p : PendingReplacement)
      → Saved laws p w
      → is_valid_pending p ≡ true
      → laws.is_plain p.spec.name ≡ true
      → Resumable p (holds laws p w)

  pub Leaves-IsConsistent : {w w' : W} → IsConsistent w → Leaves laws w w' → IsConsistent w'
  Leaves-IsConsistent c (untouched h f) = λ q s v.
      rw (h q.spec.name)
        (c q (record { text = s.text; saved = sym f ∙ s.saved; reads = s.reads }) v)
  Leaves-IsConsistent c (pending p s v r) =
      λ q s' v' pl. let e : q ≡ p = ground (arith, s.saved, s.reads, s'.saved, s'.reads) in rw e r
  Leaves-IsConsistent c (replaced p x h r f) = λ q s v pl. absurd (ground (arith, s.saved, f))
  Leaves-IsConsistent c (mistaken p n (inr f)) = λ q s v pl. absurd (ground (arith, s.saved, f))
  Leaves-IsConsistent c (mistaken p n (inl s)) = λ q s' v' pl.
      let e : q ≡ p = ground (arith, s.saved, s.reads, s'.saved, s'.reads) in
      absurd (cc (rw e at pl, n))

  module _ (json : Json) (cfg : Config) (extras : EngineExtras) where
    decoded-Leaves :
        (w : W) (t : Bytes) (o : Option PendingReplacement)
        → IsConsistent w
        → laws.file w ≡ some t
        → codec.decode t ≡ o
        → Leaves laws w (decoded host codec json cfg extras w o).0
    unfolding decoded
    decoded-Leaves w t none c f d = Leaves-refl laws w
    decoded-Leaves w t (some p) c f d = elim (Bool-cases (is_valid_pending p)) [
      | inl v ↦
          let s : Saved laws p w = record { text = t; saved = f; reads = d } in
          rw v (
            recovered-Leaves json cfg extras w (resume_replacement host.manager p w)
              (resume-Leaves laws p w s v (c p s v)))
      | inr n ↦ rw n (Leaves-refl laws w)
    ]

    record_read-Leaves :
        (w : W) (wr : W × RecordRead)
        → IsConsistent w
        → Leaves laws w wr.0
        → ReadTells (laws.file wr.0) wr.1
        → Leaves laws w (record_read host codec json cfg extras wr).0
    unfolding record_read
    record_read-Leaves w (w', missing) c l t =
        Leaves-trans laws l (sync_engine-Leaves json cfg extras [] w')
    record_read-Leaves w (w', unreadable) c l t = l
    record_read-Leaves w (w', content text) c l t =
        Leaves-trans laws l
          (decoded-Leaves w' text (codec.decode text) (Leaves-IsConsistent c l) t refl)

    ensure-Leaves :
        (w : W)
        → IsConsistent w
        → Leaves laws w (ensure_gobackup_container host codec json cfg extras w).0
    unfolding ensure_gobackup_container
    ensure-Leaves w c =
        record_read-Leaves w (host.read_record w) c
          (untouched (λ n. laws.read_holds n w) (laws.read_file w))
          (rw (laws.read_file w) (laws.read_tells w))

    -- Whichever call fails, a run leaves the containers and the record as they were, or a valid record
    -- and a state from which a next run can finish the replacement, or the replacement in the
    -- engine's place and no record; so if every record that is saved can be finished, that is so
    -- afterwards too.
    pub ensure_lem :
        (w : W)
        → IsConsistent w
        → let w' = (ensure_gobackup_container host codec json cfg extras w).0 in
          Leaves laws w w' × IsConsistent w'
    ensure_lem w c = (ensure-Leaves w c, Leaves-IsConsistent c (ensure-Leaves w c))
