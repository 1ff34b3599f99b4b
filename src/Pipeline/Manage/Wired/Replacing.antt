-- ===== src/Pipeline/Manage/Wired/Replacing.antt =====
-- The wired manager does what resumeGobackupReplacement relies on.
use gobackup_docker.Pipeline.Docker.{InspectResult, ContainerSpec}
use gobackup_docker.Pipeline.Docker.Client.{RawContainer, Summary, inspect_result, create_request}
use gobackup_docker.Pipeline.Docker.Calls.{
  brief, wrapped_answer, wrapped_error, container_remove, container_stop, container_start,
  wrapped_answer, wrapped_error, container_create, DockerError, Answer, done, error, Sdk,
  answered_inspect, container_inspect, answered_list,
}
use gobackup_docker.Apply.{FileSystem}
use gobackup_docker.Base.Dict.{get}
use gobackup_docker.Pipeline.Manage.{or_text, replaces_label}
use gobackup_docker.Pipeline.Manage.Replace.{
  Manager, PendingReplacement, is_valid_pending, Failure, not_found, not_modified, other, ok,
  failed,
}
use gobackup_docker.Pipeline.Manage.Replace.Recovery.{
  Daemon, At, Told, AfterRemove, AfterCreate, IsBuilt,
}
use gobackup_docker.Pipeline.Manage.Ensure.{RecordRead, Codec}
use gobackup_docker.Pipeline.Manage.Ensure.Laws.{IsSound}
use gobackup_docker.Pipeline.Manage.Wired.{as_result, as_failure, docker_manager}
use gobackup_docker.Pipeline.Manage.Wired.Laws.{
  GoneIf, Shows, IsMade, Made, HasId, Removed, WiredLaws,
}
use gobackup_docker.Base.{
  ◌∙◌, ap, refl, ◌≡◌, true, false, Option, none, some, List, Bytes, codes, ◌++◌, str_eq_iff, arith,
}

-- what an inspection makes of a container
abbrev pub seen : Option RawContainer → Option InspectResult
seen none = none
seen (some c) = some (inspect_result c)

seen-none : (h : Option RawContainer) → seen h ≡ none → h ≡ none
seen-none none e = refl
seen-none (some c) e = cc

HasId-At : (id : Bytes) (h : Option RawContainer) → HasId id h → At id (seen h)
unfolding inspect_result
HasId-At id none e = tt
HasId-At id (some c) e = e

At-HasId : (id : Bytes) (h : Option RawContainer) → At id (seen h) → HasId id h
unfolding inspect_result
At-HasId id none e = tt
At-HasId id (some c) e = e

GoneIf-Told : (f : Failure) (h : Option RawContainer) → GoneIf f h Unit → Told (seen h) (failed f)
GoneIf-Told not_found h e = ap seen e
GoneIf-Told not_modified h e = tt
GoneIf-Told other h e = tt

GoneIf-AfterRemove :
    (f : Failure) (id : Bytes) (h : Option RawContainer)
    → GoneIf f h (HasId id h)
    → AfterRemove id (seen h) (some f)
GoneIf-AfterRemove not_found id h e = ap seen e
GoneIf-AfterRemove not_modified id h e = HasId-At id h e
GoneIf-AfterRemove other id h e = HasId-At id h e

module _ {W : Type 0} (sdk : Sdk W) where
  inspect_world :
      (id : Bytes) (a : W × Answer RawContainer) → (as_result (answered_inspect sdk id a)).0 ≡ a.0
  unfolding answered_inspect
  inspect_world id (w, done c) = refl
  inspect_world id (w, error e) = refl

  inspect_Told :
      (id : Bytes) (h : Option RawContainer) (a : W × Answer RawContainer)
      → Shows h a.1
      → Told (seen h) (as_result (answered_inspect sdk id a)).1
  unfolding answered_inspect
  inspect_Told id h (w, done c) s = ap seen s
  inspect_Told id h (w, error e) s = GoneIf-Told e.class h s

  pub inspect_tells :
      (id : Bytes) (a : W × Answer RawContainer) (c : InspectResult)
      → (as_result (answered_inspect sdk id a)).1 ≡ ok c
      → (raw : RawContainer) × (a.1 ≡ done raw) × (c ≡ inspect_result raw)
  unfolding answered_inspect
  inspect_tells id (w, done raw) c e = (raw, refl, cc)
  inspect_tells id (w, error x) c e = cc

  pub list_world :
      (what : Bytes) (a : W × Answer (List Summary))
      → (as_result (answered_list sdk what a)).0 ≡ a.0
  unfolding answered_list
  list_world what (w, done c) = refl
  list_world what (w, error e) = refl

  answer_world :
      {A : Type 0} (t : Bytes) (a : W × Answer A) → (as_result (a.0, wrapped_answer t a.1)).0 ≡ a.0
  answer_world t (w, done c) = refl
  answer_world t (w, error e) = refl

  error_world :
      (t : Bytes) (a : W × Option DockerError) → (as_failure (a.0, wrapped_error t a.1)).0 ≡ a.0
  error_world t (w, none) = refl
  error_world t (w, some e) = refl

  remove_After :
      (id t : Bytes) (h : Option RawContainer) (a : W × Option DockerError)
      → Removed id h a.1
      → AfterRemove id (seen h) (as_failure (a.0, wrapped_error t a.1)).1
  remove_After id t h (w, none) r = ap seen r
  remove_After id t h (w, some e) r = GoneIf-AfterRemove e.class id h r

  module _ (p : PendingReplacement) (valid : is_valid_pending p ≡ true) where
    old_label : or_text (get replaces_label p.spec.labels) ≡ p.old_id
    unfolding is_valid_pending
    old_label = ground (arith, str_eq_iff (or_text (get replaces_label p.spec.labels)) p.old_id)

    IsMade-IsBuilt :
        (c : RawContainer) → IsMade (create_request p.spec) c → IsBuilt p (inspect_result c)
    unfolding create_request inspect_result
    IsMade-IsBuilt c m = (
      rw m.shown.has_config m.shown.labels_shown,
      rw (old_label) at (m.is_new replaces_label),
      m.has_id,
    )

    create_After :
        (t : Bytes) (h : Option RawContainer) (a : W × Answer Bytes)
        → Made (create_request p.spec) h a.1
        → AfterCreate p (seen h) (as_result (a.0, wrapped_answer t a.1)).1
    unfolding inspect_result
    create_After t h (w, done id) (c, e, i, m) =
        (inspect_result c, ap seen e, i, IsMade-IsBuilt c m)
    create_After t none (w, error e) m = tt
    create_After t (some c) (w, error e) m = IsMade-IsBuilt c m

module _ {W : Type 0} {sdk : Sdk W} {fs : FileSystem W} {read_file : Bytes → W → W × RecordRead}
    {path : Bytes} {codec : Codec} (laws : WiredLaws sdk fs read_file path codec) where
  abbrev pub mgr : Manager W
  mgr = docker_manager sdk fs read_file path

  -- the world after each call of the manager is that after the SDK's
  pub inspect_left : (id : Bytes) (w : W) → (mgr.inspect id w).0 ≡ (sdk.inspect_container id w).0
  unfolding docker_manager container_inspect
  inspect_left id w = inspect_world sdk id (sdk.inspect_container id w)

  pub create_left :
      (spec : ContainerSpec) (w : W)
      → (mgr.create spec w).0 ≡ (sdk.create_container (create_request spec) w).0
  unfolding docker_manager container_create
  create_left spec w =
      answer_world sdk (codes "create container") (sdk.create_container (create_request spec) w)

  pub start_left : (id : Bytes) (w : W) → (mgr.start id w).0 ≡ (sdk.start_container id w).0
  unfolding docker_manager container_start
  start_left id w =
      error_world sdk (codes "start container " ++ brief id) (sdk.start_container id w)

  pub stop_left : (id : Bytes) (w : W) → (mgr.stop id w).0 ≡ (sdk.stop_container id none w).0
  unfolding docker_manager container_stop
  stop_left id w =
      error_world sdk (codes "stop container " ++ brief id) (sdk.stop_container id none w)

  pub remove_left : (id : Bytes) (w : W) → (mgr.remove id w).0 ≡ (sdk.remove_container id false w).0
  unfolding docker_manager container_remove
  remove_left id w =
      error_world sdk (codes "remove container " ++ brief id) (sdk.remove_container id false w)

  -- the container under a name, as an inspection shows it
  abbrev pub held : Bytes → W → Option InspectResult
  held n w = seen (laws.docker.at n w)

  pub wired_stop : (n id : Bytes) (w : W) → At id (held n w) → At id (held n (mgr.stop id w).0)
  wired_stop n id w a =
      let h = laws.docker.stop_at n id none w (At-HasId id (laws.docker.at n w) a) in
      rw (stop_left id w) (HasId-At id _ h)

  pub wired_remove :
      (n id : Bytes) (w : W)
      → At id (held n w)
      → AfterRemove id (held n (mgr.remove id w).0) (mgr.remove id w).1
  unfolding docker_manager container_remove
  wired_remove n id w a =
      let h = laws.docker.remove_at n id false w (At-HasId id (laws.docker.at n w) a) in
      rw (remove_left id w) (
        remove_After sdk id (codes "remove container " ++ brief id) _
          (sdk.remove_container id false w) h)

  pub wired_create :
      (p : PendingReplacement) (w : W)
      → is_valid_pending p ≡ true
      → held p.spec.name w ≡ none
      → AfterCreate p (held p.spec.name (mgr.create p.spec w).0) (mgr.create p.spec w).1
  unfolding docker_manager container_create create_request
  wired_create p w v h = rw (create_left p.spec w) (
      create_After sdk p v (codes "create container") _
        (sdk.create_container (create_request p.spec) w)
        (laws.docker.create_at (create_request p.spec) w (seen-none _ h)))

  pub wired_inspect :
      (n : Bytes) (w : W) → laws.docker.is_plain n ≡ true → Told (held n w) (mgr.inspect n w).1
  unfolding docker_manager container_inspect
  wired_inspect n w plain = inspect_Told sdk n _ _ (laws.docker.inspect_plain n w plain)

  abbrev pub wired_Daemon : (p : PendingReplacement) → IsSound laws.docker.is_plain p → Daemon mgr p
  unfolding docker_manager
  wired_Daemon p (valid, plain) =
      let n = p.spec.name in
      let read = laws.files.read path in
      record {
        holds = held n;
        file = read;
        inspect_holds =
            λ w. ap (held n) (inspect_left n w) ∙ ap seen (laws.docker.inspect_at n n w);
        inspect_tells = λ w. wired_inspect n w plain;
        stop_at = wired_stop n;
        remove_at = wired_remove n;
        create_holds = λ w h. wired_create p w valid h;
        start_holds = λ id w. ap (held n) (start_left id w) ∙ ap seen (laws.docker.start_at n id w);
        clear_holds = λ w. ap seen (laws.files_at.remove path w refl n);
        inspect_file = λ w. ap read (inspect_left n w) ∙ laws.inspect_read n w;
        stop_file = λ id w. ap read (stop_left id w) ∙ laws.stop_read id none w;
        remove_file = λ id w. ap read (remove_left id w) ∙ laws.remove_container_read id false w;
        create_file =
            λ w. ap read (create_left p.spec w) ∙ laws.create_read (create_request p.spec) w;
        start_file = λ id w. ap read (start_left id w) ∙ laws.start_read id w;
        clear_file = λ w. laws.remove_read w;
      }
