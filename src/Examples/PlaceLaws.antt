-- ===== src/Examples/PlaceLaws.antt =====
-- What is relied on of Docker and of a file system holds of a place.
use gobackup_docker.Labels.{one_of}
use gobackup_docker.Base.{
  All, List, ◌<◌, inl, inr, if-holds, ◌≡◌, ap, refl, sym, ◌∙◌, arith, Bool-cases, Bool, true, false,
  Option, none, some, [], ◌∷◌, ◌++◌, Bytes, codes, length, length-append, ◌<◌, is_empty, str_eq,
  str_eq_iff,
}
use gobackup_docker.Base.Dict.{Dict, get}
use gobackup_docker.Apply.Laws.{FileLaws, AfterWrite, AfterRename}
use gobackup_docker.Apply.Steps.{Steps}
use gobackup_docker.Pipeline.Docker.Client.{RawContainer, CreateRequest}
use gobackup_docker.Pipeline.Docker.Calls.{done}
use gobackup_docker.Pipeline.Manage.{or_text}
use gobackup_docker.Pipeline.Manage.Replace.Recovery.{AfterClear}
use gobackup_docker.Pipeline.Manage.Ensure.Laws.{ReadTells}
use gobackup_docker.Pipeline.Manage.Wired.Laws.{Shows, IsMade, Made, DockerLaws, WiredLaws}
use gobackup_docker.Examples.Ensure.{codec, decoded_encoded}
use gobackup_docker.Examples.Place.{
  with_path, named_as, Place, temp, path, read, record_removed, files, read_record, read_file,
  named, answer, new_id, made, create, sdk,
}

pub at_name : (n : Bytes) (h : Option RawContainer) → Shows (named n h) (answer (named n h))
at_name n none = refl
at_name n (some c) = elim (Bool-cases (str_eq c.name (codes "/" ++ n))) [
  | inl y ↦ rw y refl
  | inr m ↦ rw m refl
]

pub at_any :
    (id : Bytes) (h : Option RawContainer) (c : RawContainer)
    → answer (named id h) ≡ done c
    → (n : Bytes) × (c.name ≡ codes "/" ++ n) × (named n h ≡ some c)
at_any id none c e = cc
at_any id (some d) c e = elim (Bool-cases (str_eq d.name (codes "/" ++ id))) [
  | inl y ↦
      let same : d ≡ c = cc (rw y at e) in
      (
        id,
        ap (λ i. i.name) (sym same) ∙ (str_eq_iff d.name (codes "/" ++ id)).0 y,
        rw y (ap some same),
      )
  | inr m ↦ absurd (cc (rw m at e))
]

shorter : (k : Bytes) (m : Dict Bytes) → length (or_text (get k m)) < length (new_id m)
unfolding get
shorter k [] = omega arith
shorter k ((j, v) ∷ m) = elim (Bool-cases (str_eq j k)) [
  | inl y ↦ rw y (omega (arith, length-append v (new_id m), shorter [] m))
  | inr n ↦ rw n (omega (arith, length-append v (new_id m), shorter k m))
]

longer : (k : Bytes) (m : Dict Bytes) → str_eq (new_id m) (or_text (get k m)) ≡ false
longer k m = elim (Bool-cases (str_eq (new_id m) (or_text (get k m)))) [
  | inr n ↦ n
  | inl y ↦
      let e : length (new_id m) ≡ length (or_text (get k m)) =
        ap length ((str_eq_iff (new_id m) (or_text (get k m))).0 y) in
      let b = shorter k m in absurd (omega arith)
]

new_id_some : (m : Dict Bytes) → is_empty (new_id m) ≡ false
new_id_some [] = refl
new_id_some ((k, []) ∷ m) = new_id_some m
new_id_some ((k, x ∷ v) ∷ m) = refl

one_of_more : (e x : Bytes) (env : List Bytes) → one_of e env ≡ true → one_of e (x ∷ env) ≡ true
unfolding one_of
one_of_more e x env h = ground (arith, h)

All-one_of_more :
    (x : Bytes) (env asked : List Bytes)
    → All (λ (e : Bytes). one_of e env ≡ true) asked
    → All (λ (e : Bytes). one_of e (x ∷ env) ≡ true) asked
All-one_of_more x env [] h = tt
All-one_of_more x env (e ∷ asked) h = (one_of_more e x env h.0, All-one_of_more x env asked h.1)

one_of_first : (e : Bytes) (env : List Bytes) → one_of e (e ∷ env) ≡ true
unfolding one_of
one_of_first e env = rw ((str_eq_iff e e).1 refl) refl

All-one_of : (env : List Bytes) → All (λ (e : Bytes). one_of e env ≡ true) env
All-one_of [] = tt
All-one_of (e ∷ env) = (one_of_first e env, All-one_of_more e env env (All-one_of env))

made-IsMade : (r : CreateRequest) → IsMade r (made r)
made-IsMade r = record {
  shown = record {
    config = with_path r.config;
    has_config = refl;
    name_shown = refl;
    image_shown = refl;
    cmd_shown = λ n. refl;
    env_shown = All-one_of_more (codes "PATH=/bin") _ _ (All-one_of r.config.env);
    labels_shown = λ k v e. e;
  };
  has_id = new_id_some r.config.labels;
  is_new = λ k. longer k r.config.labels;
}

create-Made :
    (r : CreateRequest) (w : Place) (h : Option RawContainer)
    → w.container ≡ h
    → named r.name h ≡ none
    → Made r (named r.name (create r w).0.container) (create r w).1
create-Made r w none e h = rw e (
    let same = (str_eq_iff (codes "/" ++ r.name) (codes "/" ++ r.name)).1 refl in
    (made r, rw same refl, refl, made-IsMade r))
create-Made r w (some d) e h = rw e (rw h tt)

pub creates :
    (r : CreateRequest) (w : Place)
    → named r.name w.container ≡ none
    → Made r (named r.name (create r w).0.container) (create r w).1
creates r w h = create-Made r w w.container refl h

unfoldable pub docker_Laws : DockerLaws sdk
docker_Laws = record {
  at = λ n w. named n w.container;
  is_plain = λ n. true;
  list_at = λ n all w. refl;
  inspect_at = λ n id w. refl;
  inspect_plain = λ n w h. at_name n w.container;
  inspect_any = λ id w c e. at_any id w.container c e;
  create_at = creates;
  start_at = λ n id w. refl;
  stop_at = λ n id timeout w h. h;
  remove_at = λ n id force w h. refl;
}

pub write_path : (t text : Bytes) (w : Place) → read path (files.write t text w).0 ≡ read path w
unfolding str_eq
write_path t text w = elim (Bool-cases (str_eq t temp)) [ inl y ↦ rw y refl | inr n ↦ rw n refl ]

pub write_temp :
    (t text : Bytes) (w : Place)
    → AfterWrite text (read t (files.write t text w).0) (files.write t text w).1
write_temp t text w = elim (Bool-cases (str_eq t temp)) [ inl y ↦ rw y refl | inr n ↦ rw n tt ]

pub remove_path :
    (t : Bytes) (w : Place) → str_eq t path ≡ false → read path (files.remove t w).0 ≡ read path w
unfolding str_eq
remove_path t w n = elim (Bool-cases (str_eq t temp)) [ inl y ↦ rw y refl | inr m ↦ rw (m, n) refl ]

pub rename_path :
    (t : Bytes) (w : Place)
    → AfterRename
        (read path w)
        (read t w)
        (read path (files.rename t path w).0)
        (files.rename t path w).1
unfolding str_eq
rename_path t w = elim (Bool-cases (str_eq t temp)) [ inl y ↦ rw y refl | inr n ↦ rw n (inl refl) ]

-- files of neither call are the containers
removed_container :
    (w : Place) (o : Option Bytes) → w.saved ≡ o → (record_removed w).0.container ≡ w.container
removed_container w none e = rw e refl
removed_container w (some t) e = rw e refl

abbrev Same : Bytes → Place → Place × Bool → Type 0
Same n w a = named n a.0.container ≡ named n w.container

pub files_apart :
    Steps files (λ t. true) (λ w w'. (n : Bytes) → named n w'.container ≡ named n w.container)
files_apart = record {
  same = λ w n. refl;
  then_ = λ u v w h k n. k n ∙ h n;
  temp_apart = λ p q w. refl;
  create_temp = λ p q w n. refl;
  write = λ t text w a n.
      if-holds (Same n w) (str_eq t temp) (record w { temporary = some text }, true) (w, false) refl
        refl;
  chmod = λ t mode w n. refl;
  sync = λ t w n. refl;
  close = λ t w n. refl;
  rename = λ t p w a b n.
      if-holds (Same n w) (str_eq t temp) (named_as p w, true) (w, false)
        (if-holds (λ (v : Place). named n v.container ≡ named n w.container) (str_eq p path) _ _
          refl refl)
        refl;
  remove = λ t w a n.
      if-holds (Same n w) (str_eq t temp) (record w { temporary = none }, true) _ refl
        (if-holds (Same n w) (str_eq t path) (record_removed w) (w, false)
          (ap (named n) (removed_container w w.saved refl)) refl);
  open_dir = λ p w n. refl;
  sync_dir = λ p w n. refl;
  close_dir = λ p w n. refl;
}

pub read_record_tells : (o : Option Bytes) → ReadTells o (read_record o)
read_record_tells none = refl
read_record_tells (some t) = refl

pub removed_saved :
    (w : Place) (o : Option Bytes)
    → w.saved ≡ o
    → AfterClear w.saved (record_removed w).0.saved (record_removed w).1
removed_saved w none e = rw e refl
removed_saved w (some t) e = rw e refl

pub create_saved :
    (r : CreateRequest) (w : Place) (h : Option RawContainer)
    → w.container ≡ h
    → (create r w).0.saved ≡ w.saved
create_saved r w none e = rw e refl
create_saved r w (some c) e = rw e refl

unfoldable pub files_Laws : FileLaws files path
unfolding str_eq
files_Laws = record {
  read = read;
  temp_other = λ w. refl;
  temp_read = λ w. refl;
  write_other = λ t text w n. write_path t text w;
  write_done = write_temp;
  chmod_read = λ n t mode w. refl;
  sync_read = λ n t w. refl;
  close_read = λ n t w. refl;
  rename_read = rename_path;
  remove_other = remove_path;
  open_dir_read = λ w. refl;
  sync_dir_read = λ w. refl;
  close_dir_read = λ w. refl;
}

unfoldable pub wired_Laws : WiredLaws sdk files read_file path codec
unfolding str_eq docker_Laws files_Laws
wired_Laws = record {
  docker = docker_Laws;
  files = files_Laws;
  files_at = files_apart;
  read_file_at = λ n w. refl;
  read_file_read = λ w. refl;
  read_file_tells = λ w. read_record_tells w.saved;
  remove_read = λ w. removed_saved w w.saved refl;
  list_read = λ all w. refl;
  inspect_read = λ id w. refl;
  create_read = λ r w. create_saved r w w.container refl;
  start_read = λ id w. refl;
  stop_read = λ id timeout w. refl;
  remove_container_read = λ id force w. refl;
  decode-encode = decoded_encoded;
}
