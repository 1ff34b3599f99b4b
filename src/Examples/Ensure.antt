-- ===== src/Examples/Ensure.antt =====
-- The engine brought to its spec, on a host with one container at most.
use native.Mathlib.Decide.{ℕ_discrete}
use gobackup_docker.Base.{
  inr, sym, inl, arith, Bool-cases, ap, str_eq_iff, ℕ, refl, ◌≡◌, Bool, true, false, Option, none,
  some, List, [], ◌∷◌, Bytes, codes, length, str_eq, if◌then◌else◌,
}
use gobackup_docker.Base.Dict.{put, get}
use gobackup_docker.Container.{empty_config}
use gobackup_docker.Pipeline.Docker.{Container, InspectResult, ContainerSpec}
use gobackup_docker.Pipeline.Manage.{
  needs_recreate, Json, EngineExtras, gobackup_component_label, gobackup_component_value,
  replaces_label, or_text, engine_spec,
}
use gobackup_docker.Pipeline.Manage.Replace.{
  resume_replacement, PendingReplacement, is_valid_pending, not_found, other, Result, ok, failed,
}
use gobackup_docker.Pipeline.Manage.Replace.Recovery.{Daemon, AfterCreate, AfterClear, Told}
use gobackup_docker.Pipeline.Manage.Ensure.{
  find_gobackup_container, RecordRead, missing, content, Host, Codec, ensure_gobackup_container,
}
use gobackup_docker.Pipeline.Manage.Ensure.Laws.{cleared-Kept, Kept-then, HostLaws, ReadTells}
use gobackup_docker.Pipeline.Manage.Ensure.Safety.{IsConsistent}

-- the container, and the record's file
abbrev pub Disk : Type 0
Disk = Option InspectResult × Option Bytes

abbrev named : Bytes → Option InspectResult → Option InspectResult
named n none = none
named n (some c) = if str_eq c.name n then some c else none

-- a new id, other than that of the container that is replaced
abbrev made : ContainerSpec → InspectResult
made spec = record {
  id = b'x' ∷ or_text (get replaces_label spec.labels);
  name = spec.name;
  image = spec.image;
  command = spec.command;
  env = spec.env;
  labels = spec.labels;
  mounts = [];
  networks = spec.networks;
}

abbrev found : Option InspectResult → Result InspectResult
found none = failed not_found
found (some c) = ok c

abbrev disk_create : ContainerSpec → Disk → Disk × Result Bytes
disk_create spec (none, f) = ((some (made spec), f), ok (made spec).id)
disk_create spec (some c, f) = ((some c, f), failed other)

abbrev disk_clear : Disk → Disk × Bool
disk_clear (h, none) = ((h, none), false)
disk_clear (h, some t) = ((h, none), true)

abbrev listing : Option InspectResult → List Container
listing none = []
listing (some c) = record { id = c.name; name = c.name; labels = c.labels } ∷ []

abbrev disk_read : Option Bytes → RecordRead
disk_read none = missing
disk_read (some t) = content t

abbrev pub disk : Host Disk
disk = record {
  manager = record {
    inspect = λ n w. (w, found (named n w.0));
    stop = λ id w. (w, none);
    remove = λ id w. ((none, w.1), none);
    create = disk_create;
    start = λ id w. (w, none);
    remove_record = disk_clear;
  };
  list_all = λ w. (w, ok (listing w.0));
  read_record = λ w. (w, disk_read w.1);
  write_record = λ t w. ((w.0, some t), true);
}

unfoldable pub PendingReplacement-discrete : Discrete PendingReplacement
PendingReplacement-discrete = hlevel ℕ_discrete

module _ (p : PendingReplacement) (valid : is_valid_pending p ≡ true) where
  told : (w : Disk) → Told (named p.spec.name w.0) (found (named p.spec.name w.0))
  told (none, f) = refl
  told (some c, f) = elim (Bool-cases (str_eq c.name p.spec.name)) [
    | inl y ↦ rw y refl
    | inr n ↦ rw n refl
  ]

  old_label : or_text (get replaces_label p.spec.labels) ≡ p.old_id
  unfolding is_valid_pending
  old_label = ground (arith, str_eq_iff (or_text (get replaces_label p.spec.labels)) p.old_id)

  longer : (x : ℕ) (s : Bytes) → str_eq (x ∷ s) s ≡ false
  longer x s = elim (Bool-cases (str_eq (x ∷ s) s)) [
    | inr n ↦ n
    | inl y ↦
        let e : x ∷ s ≡ s = (str_eq_iff (x ∷ s) s).0 y in
        let n : length (x ∷ s) ≡ length s = ap length e in absurd (omega arith)
  ]

  disk_created :
      (w : Disk)
      → named p.spec.name w.0 ≡ none
      → AfterCreate p (named p.spec.name (disk_create p.spec w).0.0) (disk_create p.spec w).1
  disk_created (none, f) h =
      rw ((str_eq_iff p.spec.name p.spec.name).1 refl)
        (made p.spec, refl, refl, ((λ k v e. e), rw old_label (longer b'x' p.old_id), refl))
  disk_created (some c, f) h = rw h tt

  disk_created_file : (w : Disk) → (disk_create p.spec w).0.1 ≡ w.1
  disk_created_file (none, f) = refl
  disk_created_file (some c, f) = refl

  disk_cleared : (w : Disk) → named p.spec.name (disk_clear w).0.0 ≡ named p.spec.name w.0
  disk_cleared (h, none) = refl
  disk_cleared (h, some t) = refl

  disk_cleared_file : (w : Disk) → AfterClear w.1 (disk_clear w).0.1 (disk_clear w).1
  disk_cleared_file (h, none) = refl
  disk_cleared_file (h, some t) = refl

  abbrev disk_Daemon : Daemon disk.manager p
  disk_Daemon = record {
    holds = λ w. named p.spec.name w.0;
    file = λ w. w.1;
    inspect_holds = λ w. refl;
    inspect_tells = told;
    stop_at = λ id w a. a;
    remove_at = λ id w a. refl;
    create_holds = disk_created;
    start_holds = λ id w. refl;
    clear_holds = disk_cleared;
    inspect_file = λ w. refl;
    stop_file = λ id w. refl;
    remove_file = λ id w. refl;
    create_file = disk_created_file;
    start_file = λ id w. refl;
    clear_file = disk_cleared_file;
  }

abbrev old_engine : InspectResult
old_engine = record {
  id = codes "old";
  name = codes "engine";
  image = codes "gobackup";
  command = codes "gobackup" ∷ [];
  env = [];
  labels = (gobackup_component_label, gobackup_component_value) ∷ [];
  mounts = [];
  networks = [];
}

abbrev pub plain_json : Json
plain_json = record { marshal = λ cmd. codes "cmd"; unmarshal = λ t. none }

abbrev extras : EngineExtras
extras = record { extra_mounts = []; env_vars = codes "PW=x" ∷ []; secret_exports = [] }

abbrev spec : ContainerSpec
spec = engine_spec plain_json empty_config old_engine [] extras.env_vars []

abbrev pub sample : PendingReplacement
sample = record {
  old_id = old_engine.id;
  spec = record spec { labels = put replaces_label old_engine.id spec.labels };
}

-- a codec for the one record that the run writes
abbrev pub text_if : {P : Type 0} → Dec P → Option Bytes
text_if (yes h) = some (codes "r")
text_if (no h) = none

abbrev pub codec : Codec
codec = record {
  encode = λ p. text_if (PendingReplacement-discrete p sample);
  decode = λ t. some sample;
}

text_if_yes : {P : Type 0} (d : Dec P) (t : Bytes) → text_if d ≡ some t → P
text_if_yes (yes h) t e = h
text_if_yes (no h) t e = cc

pub decoded_encoded :
    (p : PendingReplacement) (t : Bytes) → codec.encode p ≡ some t → codec.decode t ≡ some p
decoded_encoded p t e = ap some (sym (text_if_yes (PendingReplacement-discrete p sample) t e))

shown_named :
    (id : Bytes) (w : Disk) (c : InspectResult)
    → found (named id w.0) ≡ ok c
    → named c.name w.0 ≡ some c
shown_named id (none, f) c h = cc
shown_named id (some e, f) c h = ground (arith, str_eq_iff e.name id, str_eq_iff e.name e.name)

disk_read_tells : (f : Option Bytes) → ReadTells f (disk_read f)
disk_read_tells none = refl
disk_read_tells (some t) = refl

created_kept : (spec : ContainerSpec) (w : Disk) → (disk_create spec w).0.1 ≡ w.1
created_kept _ (none, f) = refl
created_kept _ (some c, f) = refl

cleared_kept : (w : Disk) → AfterClear w.1 (disk_clear w).0.1 (disk_clear w).1
cleared_kept (h, none) = refl
cleared_kept (h, some t) = refl

pub disk_Laws : HostLaws disk codec
disk_Laws = record {
  holds = λ n w. named n w.0;
  file = λ w. w.1;
  is_plain = λ n. true;
  daemon = λ p v. disk_Daemon p v.0;
  same_holds = λ p v w. refl;
  same_file = λ p v w. refl;
  list_holds = λ n w. refl;
  list_file = λ w. refl;
  show_holds = λ n id w. refl;
  show_file = λ id w. refl;
  show_tells = λ id w c e. shown_named id w c e;
  calls = record {
    same = λ w. inl refl;
    then_ = λ u v w. Kept-then (λ (x : Disk). x.1) u v w;
    inspect = λ id w. inl refl;
    stop = λ id w. inl refl;
    remove = λ id w. inl refl;
    create = λ spec w. inl (created_kept spec w);
    start = λ id w. inl refl;
    remove_record = λ w. cleared-Kept _ _ _ (cleared_kept w);
    list_all = λ w. inl refl;
    read_record = λ w. inl refl;
    write_record = λ text w. inl refl;
  };
  read_holds = λ n w. refl;
  read_file = λ w. refl;
  read_tells = λ w. disk_read_tells w.1;
  write_holds = λ n t w. refl;
  write_file = λ t w. refl;
  decode-encode = decoded_encoded;
}

pub holds-removed : (n : Bytes) (f : Option Bytes) → disk_Laws.holds n (none, f) ≡ none
unfolding disk_Laws
holds-removed n f = refl

pub disk_file : (w : Disk) → disk_Laws.file w ≡ w.1
unfolding disk_Laws
disk_file w = refl

abbrev pub before : Disk
before = (some old_engine, none)

pub before-IsConsistent : IsConsistent disk_Laws before
unfolding disk_Laws
before-IsConsistent p s v = cc (s.saved)

ensure_runs :
    (ensure_gobackup_container disk codec plain_json empty_config extras before).1
    ≡ some (codes "xold", true)
unfolding ensure_gobackup_container find_gobackup_container str_eq needs_recreate engine_spec
    is_valid_pending PendingReplacement-discrete ℕ_discrete resume_replacement
ensure_runs = refl
