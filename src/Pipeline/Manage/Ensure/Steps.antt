-- ===== src/Pipeline/Manage/Ensure/Steps.antt =====
-- A relation that every call of a host keeps is kept by a run.
use gobackup_docker.Base.{
  Bool, true, false, Option, none, some, List, [], Bytes, str_eq, is_empty, if-holds,
}
use gobackup_docker.Container.{Config}
use gobackup_docker.Pipeline.Docker.{Container, InspectResult, ContainerSpec}
use gobackup_docker.Pipeline.Manage.{Json, EngineExtras, needs_recreate}
use gobackup_docker.Pipeline.Manage.Replace.{
  PendingReplacement, is_valid_pending, is_replacement, Failure, not_found, not_modified, other,
  Result, ok, failed, cleared, started, created, removed, stopped, inspected, resume_replacement,
}
use gobackup_docker.Pipeline.Manage.Ensure.{
  RecordRead, missing, unreadable, content, Host, Codec, Lookup, lookup_failed, absent, present,
  engine_id, shown, inspect_engine, listed, find_gobackup_container, recreated, persisted, encoded,
  pending_of, recreate, desired_spec, compared, synced, no_extras, sync_engine, recovered, decoded,
  record_read, ensure_gobackup_container,
}

pub record HostSteps {W : Type 0} (host : Host W) (R : W → W → Type 0) : Type 0 where
  pub same : (w : W) → R w w
  pub then_ : (u v w : W) → R u v → R v w → R u w
  pub inspect : (id : Bytes) (w : W) → R w (host.manager.inspect id w).0
  pub stop : (id : Bytes) (w : W) → R w (host.manager.stop id w).0
  pub remove : (id : Bytes) (w : W) → R w (host.manager.remove id w).0
  pub create : (spec : ContainerSpec) (w : W) → R w (host.manager.create spec w).0
  pub start : (id : Bytes) (w : W) → R w (host.manager.start id w).0
  pub remove_record : (w : W) → R w (host.manager.remove_record w).0
  pub list_all : (w : W) → R w (host.list_all w).0
  pub read_record : (w : W) → R w (host.read_record w).0
  pub write_record : (text : Bytes) (w : W) → R w (host.write_record text w).0

module _ {W : Type 0} {host : Host W} {R : W → W → Type 0} (s : HostSteps host R) (start : W) where
  -- a call after what was reached is reached
  on : (v w : W) → R start v → R v w → R start w
  on v w = s.then_ start v w

  module _ (p : PendingReplacement) where
    cleared-on : (id : Bytes) (a : W × Bool) → R start a.0 → R start (cleared host.manager p id a).0
    unfolding cleared
    cleared-on id (w, true) r = r
    cleared-on id (w, false) r = r

    clear-on :
        (id : Bytes) (w : W)
        → R start w
        → R start (cleared host.manager p id (host.manager.remove_record w)).0
    clear-on id w r = cleared-on id (host.manager.remove_record w) (on w _ r (s.remove_record w))

    started-on :
        (id : Bytes) (a : W × Option Failure)
        → R start a.0
        → R start (started host.manager p id a).0
    unfolding started
    started-on id (w, none) r = clear-on id w r
    started-on id (w, some not_modified) r = clear-on id w r
    started-on id (w, some not_found) r = r
    started-on id (w, some other) r = r

    start-on :
        (id : Bytes) (w : W)
        → R start w
        → R start (started host.manager p id (host.manager.start id w)).0
    start-on id w r = started-on id (host.manager.start id w) (on w _ r (s.start id w))

    created-on : (a : W × Result Bytes) → R start a.0 → R start (created host.manager p a).0
    unfolding created
    created-on (w, ok id) r = start-on id w r
    created-on (w, failed e) r = r

    create-on :
        (w : W) → R start w → R start (created host.manager p (host.manager.create p.spec w)).0
    create-on w r = created-on (host.manager.create p.spec w) (on w _ r (s.create p.spec w))

    removed-on : (a : W × Option Failure) → R start a.0 → R start (removed host.manager p a).0
    unfolding removed
    removed-on (w, none) r = create-on w r
    removed-on (w, some not_found) r = create-on w r
    removed-on (w, some not_modified) r = r
    removed-on (w, some other) r = r

    remove-on :
        (id : Bytes) (w : W)
        → R start w
        → R start (removed host.manager p (host.manager.remove id w)).0
    remove-on id w r = removed-on (host.manager.remove id w) (on w _ r (s.remove id w))

    stopped-on :
        (id : Bytes) (a : W × Option Failure)
        → R start a.0
        → R start (stopped host.manager p id a).0
    unfolding stopped
    stopped-on id (w, none) r = remove-on id w r
    stopped-on id (w, some not_found) r = remove-on id w r
    stopped-on id (w, some not_modified) r = remove-on id w r
    stopped-on id (w, some other) r = r

    abbrev Reached : W × Option Bytes → Type 0
    Reached a = R start a.0

    inspected-on :
        (a : W × Result InspectResult) → R start a.0 → R start (inspected host.manager p a).0
    unfolding inspected
    inspected-on (w, ok c) r =
        if-holds Reached (str_eq c.id p.old_id) _ _
          (stopped-on c.id (host.manager.stop c.id w) (on w _ r (s.stop c.id w)))
          (if-holds Reached (is_replacement p c.labels) _ (w, none)
            (if-holds Reached (is_empty c.id) _ _ (create-on w r) (start-on c.id w r)) r)
    inspected-on (w, failed not_found) r = create-on w r
    inspected-on (w, failed not_modified) r = r
    inspected-on (w, failed other) r = r

    pub resume-on : (w : W) → R start w → R start (resume_replacement host.manager p w).0
    unfolding resume_replacement
    resume-on w r =
        inspected-on (host.manager.inspect p.spec.name w) (on w _ r (s.inspect p.spec.name w))

  shown-on : (a : W × Result InspectResult) → R start a.0 → R start (shown host a).0
  unfolding shown
  shown-on (w, ok c) r = r
  shown-on (w, failed e) r = r

  inspect_engine-on : (w : W) (o : Option Bytes) → R start w → R start (inspect_engine host w o).0
  unfolding inspect_engine
  inspect_engine-on w none r = r
  inspect_engine-on w (some id) r = shown-on (host.manager.inspect id w) (on w _ r (s.inspect id w))

  listed-on : (a : W × Result (List Container)) → R start a.0 → R start (listed host a).0
  unfolding listed
  listed-on (w, ok containers) r = inspect_engine-on w (engine_id containers) r
  listed-on (w, failed e) r = r

  find-on : (w : W) → R start w → R start (find_gobackup_container host w).0
  unfolding find_gobackup_container
  find-on w r = listed-on (host.list_all w) (on w _ r (s.list_all w))

  module _ (codec : Codec) (json : Json) (cfg : Config) (extras : EngineExtras) where
    abbrev Kept : W × Option (Bytes × Bool) → Type 0
    Kept a = R start a.0

    recreated-on :
        (a : W × Option Bytes) → R start a.0 → Kept (recreated host codec json cfg extras a)
    unfolding recreated
    recreated-on (w, none) r = r
    recreated-on (w, some id) r = r

    persisted-on :
        (p : PendingReplacement) (a : W × Bool)
        → R start a.0
        → Kept (persisted host codec json cfg extras p a)
    unfolding persisted
    persisted-on p (w, true) r =
        recreated-on (resume_replacement host.manager p w) (resume-on p w r)
    persisted-on p (w, false) r = r

    encoded-on :
        (p : PendingReplacement) (w : W) (o : Option Bytes)
        → R start w
        → Kept (encoded host codec json cfg extras p w o)
    unfolding encoded
    encoded-on p w none r = r
    encoded-on p w (some text) r =
        persisted-on p (host.write_record text w) (on w _ r (s.write_record text w))

    recreate-on :
        (w : W) (p : PendingReplacement)
        → R start w
        → Kept (recreate host codec json cfg extras w p)
    unfolding recreate
    recreate-on w p r =
        if-holds Kept (is_valid_pending p) _ (w, none) (encoded-on p w (codec.encode p) r) r

    compared-on :
        (id : Bytes) (w : W) (c : InspectResult)
        → R start w
        → Kept (compared host codec json cfg extras id w c)
    unfolding compared
    compared-on id w c r =
        let spec = desired_spec host codec json cfg extras c in
        if-holds Kept (needs_recreate c spec extras.env_vars) _ _
          (recreate-on w (pending_of host codec json cfg extras c spec) r) r

    synced-on :
        (id : Bytes) (a : W × Lookup) → R start a.0 → Kept (synced host codec json cfg extras id a)
    unfolding synced
    synced-on id (w, lookup_failed) r = r
    synced-on id (w, absent) r = r
    synced-on id (w, present c) r = compared-on id w c r

    sync_engine-on :
        (id : Bytes) (w : W) → R start w → Kept (sync_engine host codec json cfg extras id w)
    unfolding sync_engine
    sync_engine-on id w r =
        if-holds Kept (no_extras host codec json cfg extras) _ _ r
          (synced-on id (find_gobackup_container host w) (find-on w r))

    recovered-on :
        (a : W × Option Bytes) → R start a.0 → Kept (recovered host codec json cfg extras a)
    unfolding recovered
    recovered-on (w, none) r = r
    recovered-on (w, some id) r = sync_engine-on id w r

    decoded-on :
        (w : W) (o : Option PendingReplacement)
        → R start w
        → Kept (decoded host codec json cfg extras w o)
    unfolding decoded
    decoded-on w none r = r
    decoded-on w (some p) r =
        if-holds Kept (is_valid_pending p) _ (w, none)
          (recovered-on (resume_replacement host.manager p w) (resume-on p w r)) r

    record_read-on :
        (a : W × RecordRead) → R start a.0 → Kept (record_read host codec json cfg extras a)
    unfolding record_read
    record_read-on (w, missing) r = sync_engine-on [] w r
    record_read-on (w, unreadable) r = r
    record_read-on (w, content text) r = decoded-on w (codec.decode text) r

    pub ensure_step : R start (ensure_gobackup_container host codec json cfg extras start).0
    unfolding ensure_gobackup_container
    ensure_step = record_read-on (host.read_record start) (s.read_record start)
