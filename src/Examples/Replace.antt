-- ===== src/Examples/Replace.antt =====
-- The replacement of the engine: runs against a host of one name, and the results at them.
use gobackup_docker.Base.{
  inl, ◌≡◌, refl, Bool, true, false, Option, none, some, [], ◌∷◌, Bytes, codes, str_eq,
}
use gobackup_docker.Base.Dict.{get}
use gobackup_docker.Pipeline.Docker.{InspectResult, ContainerSpec}
use gobackup_docker.Pipeline.Manage.{
  gobackup_component_label, gobackup_component_value, replaces_label,
}
use gobackup_docker.Pipeline.Manage.Replace.{
  Failure, PendingReplacement, is_valid_pending, is_replacement, not_found, other, Result, ok,
  failed, Manager, resume_replacement,
}
use gobackup_docker.Pipeline.Manage.Replace.Recovery.{
  AfterRemove, At, Daemon, AfterCreate, AfterClear, Told, Outcome, resume_lem,
}

-- what stands under the engine's name, and the record's file
abbrev Host : Type 0
Host = Option InspectResult × Option Bytes

abbrev made : ContainerSpec → InspectResult
made spec = record {
  id = codes "new";
  name = spec.name;
  image = spec.image;
  command = spec.command;
  env = spec.env;
  labels = spec.labels;
  mounts = [];
  networks = spec.networks;
}

-- the answer to Create, which can be lost
abbrev create_answer : Bool → Result Bytes
create_answer true = failed other
create_answer false = ok (codes "new")

abbrev host_inspect : Host → Host × Result InspectResult
host_inspect (none, f) = ((none, f), failed not_found)
host_inspect (some c, f) = ((some c, f), ok c)

abbrev host_create : Bool → ContainerSpec → Host → Host × Result Bytes
host_create lost spec (none, f) = ((some (made spec), f), create_answer lost)
host_create lost spec (some c, f) = ((some c, f), failed other)

abbrev host_clear : Host → Host × Bool
host_clear (h, none) = ((h, none), false)
host_clear (h, some t) = ((h, none), true)

abbrev host : Bool → Manager Host
host lost = record {
  inspect = λ n w. host_inspect w;
  stop = λ id w. (w, none);
  remove = λ id w. ((none, w.1), none);
  create = host_create lost;
  start = λ id w. (w, none);
  remove_record = host_clear;
}

abbrev pending : PendingReplacement
pending = record {
  old_id = codes "old";
  spec = record {
    image = codes "gobackup";
    command = [];
    env = [];
    labels =
        (replaces_label, codes "old") ∷ (gobackup_component_label, gobackup_component_value) ∷ [];
    name = codes "engine";
    mounts = [];
    networks = [];
  };
}

abbrev old_engine : InspectResult
old_engine = record (made pending.spec) { id = codes "old"; labels = [] }

abbrev before : Host
before = (some old_engine, some (codes "{}"))

inspect_same : (w : Host) → (host_inspect w).0.0 ≡ w.0
inspect_same (none, f) = refl
inspect_same (some c, f) = refl

inspect_file_same : (w : Host) → (host_inspect w).0.1 ≡ w.1
inspect_file_same (none, f) = refl
inspect_file_same (some c, f) = refl

inspect-Told : (w : Host) → Told w.0 (host_inspect w).1
inspect-Told (none, f) = refl
inspect-Told (some c, f) = refl

created_after :
    (lost : Bool) (w : Host)
    → w.0 ≡ none
    → AfterCreate pending (host_create lost pending.spec w).0.0 (host_create lost pending.spec w).1
unfolding str_eq
created_after true (none, f) h = ((λ k v e. e), refl, refl)
created_after false (none, f) h = (made pending.spec, refl, refl, ((λ k v e. e), refl, refl))
created_after lost (some c, f) h = cc

created_file : (lost : Bool) (w : Host) → (host_create lost pending.spec w).0.1 ≡ w.1
created_file lost (none, f) = refl
created_file lost (some c, f) = refl

cleared_same : (w : Host) → (host_clear w).0.0 ≡ w.0
cleared_same (h, none) = refl
cleared_same (h, some t) = refl

cleared_after : (w : Host) → AfterClear w.1 (host_clear w).0.1 (host_clear w).1
cleared_after (h, none) = refl
cleared_after (h, some t) = refl

host_Daemon : (lost : Bool) → Daemon (host lost) pending
host_Daemon lost = record {
  holds = λ w. w.0;
  file = λ w. w.1;
  inspect_holds = inspect_same;
  inspect_tells = inspect-Told;
  stop_at = λ id w a. a;
  remove_at = λ id w a. refl;
  create_holds = created_after lost;
  start_holds = λ id w. refl;
  clear_holds = cleared_same;
  inspect_file = inspect_file_same;
  stop_file = λ id w. refl;
  remove_file = λ id w. refl;
  create_file = created_file lost;
  start_file = λ id w. refl;
  clear_file = cleared_after;
}

resume_example :
    Outcome (host_Daemon true) (some (codes "{}")) (resume_replacement (host true) pending before)
unfolding is_valid_pending get str_eq host_Daemon
resume_example = resume_lem (host_Daemon true) before refl (inl refl)

-- the answer is lost, and the next run takes the container that was made
lost_answer :
    let first = resume_replacement (host true) pending before in
    (first.1 ≡ none) × (resume_replacement (host true) pending first.0).1 ≡ some (codes "new")
unfolding resume_replacement str_eq is_replacement get
lost_answer = (refl, refl)

-- the host, and whether its container runs: one that runs is not removed
abbrev Running : Type 0
Running = Host × Bool

abbrev running_remove : Running → Running × Option Failure
running_remove ((h, f), true) = (((h, f), true), some other)
running_remove ((h, f), false) = (((none, f), false), none)

abbrev running_host : Manager Running
running_host = record {
  inspect = λ n w. let (v, r) = host_inspect w.0 in ((v, w.1), r);
  stop = λ id w. ((w.0, false), none);
  remove = λ id w. running_remove w;
  create = λ spec w. let (v, r) = host_create false spec w.0 in ((v, false), r);
  start = λ id w. ((w.0, true), none);
  remove_record = λ w. let (v, r) = host_clear w.0 in ((v, w.1), r);
}

removed_after :
    (id : Bytes) (w : Running)
    → At id w.0.0
    → AfterRemove id (running_remove w).0.0.0 (running_remove w).1
removed_after id ((h, f), true) a = a
removed_after id ((h, f), false) a = refl

removed_file : (w : Running) → (running_remove w).0.0.1 ≡ w.0.1
removed_file ((h, f), true) = refl
removed_file ((h, f), false) = refl

running_Daemon : Daemon running_host pending
running_Daemon = record {
  holds = λ w. w.0.0;
  file = λ w. w.0.1;
  inspect_holds = λ w. inspect_same w.0;
  inspect_tells = λ w. inspect-Told w.0;
  stop_at = λ id w a. a;
  remove_at = removed_after;
  create_holds = λ w h. created_after false w.0 h;
  start_holds = λ id w. refl;
  clear_holds = λ w. cleared_same w.0;
  inspect_file = λ w. inspect_file_same w.0;
  stop_file = λ id w. refl;
  remove_file = λ id w. removed_file w;
  create_file = λ w. created_file false w.0;
  start_file = λ id w. refl;
  clear_file = λ w. cleared_after w.0;
}
