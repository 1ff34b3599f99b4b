-- ===== src/Examples/Place.antt =====
-- A Docker with one container at most, and a file system of the record and a temporary file.
use gobackup_docker.Base.{
  Bool, true, false, Option, none, some, List, [], ◌∷◌, ◌++◌, Bytes, codes, str_eq, if◌then◌else◌,
}
use gobackup_docker.Base.Dict.{Dict}
use gobackup_docker.Apply.{FileSystem}
use gobackup_docker.Pipeline.Docker.Client.{RawConfig, Summary, RawContainer, CreateRequest}
use gobackup_docker.Pipeline.Docker.Calls.{DockerError, Answer, done, error, Sdk}
use gobackup_docker.Pipeline.Manage.Replace.{not_found, other}
use gobackup_docker.Pipeline.Manage.Ensure.{RecordRead, missing, content}

pub record Place : Type 0 where
  pub container : Option RawContainer
  pub temporary : Option Bytes
  pub saved : Option Bytes

abbrev pub temp : Bytes
temp = codes "t"

abbrev pub path : Bytes
path = codes "/etc/gobackup/gobackup.yml.container.json"

abbrev pub read : Bytes → Place → Option Bytes
read n w = if str_eq n temp then w.temporary else w.saved

abbrev pub record_removed : Place → Place × Bool
record_removed w = elim w.saved [ none ↦ (w, false) | some t ↦ (record w { saved = none }, true) ]

-- the temporary file takes the name
abbrev pub named_as : Bytes → Place → Place
named_as p w =
    if str_eq p path
    then record w { temporary = none; saved = w.temporary }
    else record w { temporary = none }

abbrev pub files : FileSystem Place
files = record {
  create_temp = λ p q w. (record w { temporary = some [] }, some temp);
  write =
      λ t text w. if str_eq t temp then (record w { temporary = some text }, true) else (w, false);
  chmod = λ t mode w. (w, true);
  sync = λ t w. (w, true);
  close = λ t w. (w, true);
  rename = λ t p w. if str_eq t temp then (named_as p w, true) else (w, false);
  remove = λ t w.
      if str_eq t temp
      then (record w { temporary = none }, true)
      else if str_eq t path
      then record_removed w
      else (w, false);
  open_dir = λ p w. (w, true);
  sync_dir = λ p w. (w, true);
  close_dir = λ p w. (w, true);
}

abbrev pub read_record : Option Bytes → RecordRead
read_record none = missing
read_record (some t) = content t

abbrev pub read_file : Bytes → Place → Place × RecordRead
read_file n w = (w, read_record (read n w))

abbrev pub named : Bytes → Option RawContainer → Option RawContainer
named n none = none
named n (some c) = if str_eq c.name (codes "/" ++ n) then some c else none

abbrev pub refused : DockerError
refused = record { text = codes "conflict"; class = other }

abbrev pub no_such : DockerError
no_such = record { text = codes "no such container"; class = not_found }

abbrev pub answer : Option RawContainer → Answer RawContainer
answer none = error no_such
answer (some c) = done c

-- longer than every text of the labels
abbrev pub new_id : Dict Bytes → Bytes
new_id [] = b'x' ∷ []
new_id ((k, v) ∷ m) = v ++ new_id m

-- the image brings a variable
abbrev pub with_path : RawConfig → RawConfig
with_path c = record c { env = codes "PATH=/bin" ∷ c.env }

abbrev pub made : CreateRequest → RawContainer
made r = record {
  id = new_id r.config.labels;
  name = codes "/" ++ r.name;
  mounts = [];
  config = some (with_path r.config);
  networks = r.network_config;
}

abbrev pub create : CreateRequest → Place → Place × Answer Bytes
create r w = elim w.container [
  | none ↦ (record w { container = some (made r) }, done (new_id r.config.labels))
  | some c ↦ (w, error refused)
]

abbrev pub summaries : Option RawContainer → List Summary
summaries none = []
summaries (some c) =
    record {
      id = codes "engine";
      names = c.name ∷ [];
      labels = elim c.config [ none ↦ [] | some r ↦ r.labels ];
    }
    ∷ []

abbrev pub sdk : Sdk Place
sdk = record {
  new_client = λ w. (w, none);
  ping = λ w. (w, none);
  close_client = λ w. (w, none);
  info = λ w. (w, done (codes "host"));
  list_containers = λ all w. (w, done (summaries w.container));
  inspect_container = λ n w. (w, answer (named n w.container));
  create_container = create;
  start_container = λ id w. (w, none);
  stop_container = λ id timeout w. (w, none);
  remove_container = λ id force w. (record w { container = none }, none);
}
