-- ===== src/Pipeline/Manage/Wired/Laws.antt =====
-- What is relied on of the SDK and of the file system that are wired.
use gobackup_docker.Base.{
  ◌≡◌, Bool, true, false, Option, none, some, Bytes, codes, ◌++◌, str_eq, is_empty,
}
use gobackup_docker.Base.Dict.{get}
use gobackup_docker.Tree.{ℤ}
use gobackup_docker.Apply.{FileSystem}
use gobackup_docker.Apply.Laws.{FileLaws}
use gobackup_docker.Apply.Steps.{Steps}
use gobackup_docker.Pipeline.Docker.Client.{RawContainer, CreateRequest}
use gobackup_docker.Pipeline.Docker.Calls.{DockerError, Answer, done, error, Sdk}
use gobackup_docker.Pipeline.Docker.Shown.{IsShown}
use gobackup_docker.Pipeline.Manage.{or_text}
use gobackup_docker.Pipeline.Manage.Replace.{
  PendingReplacement, Failure, not_found, not_modified, other,
}
use gobackup_docker.Pipeline.Manage.Replace.Recovery.{AfterClear}
use gobackup_docker.Pipeline.Manage.Ensure.{RecordRead, Codec}
use gobackup_docker.Pipeline.Manage.Ensure.Laws.{ReadTells}

-- an error of the class that tells so means that nothing is there
abbrev pub GoneIf : Failure → Option RawContainer → Type 0 → Type 0
GoneIf not_found h Else = h ≡ none
GoneIf not_modified h Else = Else
GoneIf other h Else = Else

-- an inspection under a name shows the container that stands there
abbrev pub Shows : Option RawContainer → Answer RawContainer → Type 0
Shows h (done c) = h ≡ some c
Shows h (error e) = GoneIf e.class h Unit

-- the container was made as requested, with an id that the request does not mention
pub record IsMade (r : CreateRequest) (c : RawContainer) : Type 0 where
  pub shown : IsShown r c
  pub has_id : is_empty c.id ≡ false
  pub is_new : (k : Bytes) → str_eq c.id (or_text (get k r.config.labels)) ≡ false

-- a creation whose answer is lost may have made the container
abbrev pub Made : CreateRequest → Option RawContainer → Answer Bytes → Type 0
Made r h (done id) = (c : RawContainer) × (h ≡ some c) × (c.id ≡ id) × IsMade r c
Made r none (error e) = Unit
Made r (some c) (error e) = IsMade r c

-- the container under the name, if there is one, is the one with the id
abbrev pub HasId : Bytes → Option RawContainer → Type 0
HasId id none = Unit
HasId id (some c) = c.id ≡ id

abbrev pub Removed : Bytes → Option RawContainer → Option DockerError → Type 0
Removed id h none = h ≡ none
Removed id h (some e) = GoneIf e.class h (HasId id h)

-- What is relied on of Docker. `at n w` is the container that stands under the name `n`; a plain name
-- is one that Docker takes for no id of a container. Listings, inspections and starts
-- change no container, a stop or a removal none but the one that it is given.
pub record DockerLaws {W : Type 0} (sdk : Sdk W) : Type 0 where
  pub at : Bytes → W → Option RawContainer
  pub is_plain : Bytes → Bool
  pub list_at : (n : Bytes) (all : Bool) (w : W) → at n (sdk.list_containers all w).0 ≡ at n w
  pub inspect_at : (n id : Bytes) (w : W) → at n (sdk.inspect_container id w).0 ≡ at n w
  pub inspect_plain :
      (n : Bytes) (w : W) → is_plain n ≡ true → Shows (at n w) (sdk.inspect_container n w).1
  pub inspect_any :
      (id : Bytes) (w : W) (c : RawContainer)
      → (sdk.inspect_container id w).1 ≡ done c
      → (n : Bytes) × (c.name ≡ codes "/" ++ n) × (at n w ≡ some c)
  pub create_at :
      (r : CreateRequest) (w : W)
      → at r.name w ≡ none
      → Made r (at r.name (sdk.create_container r w).0) (sdk.create_container r w).1
  pub start_at : (n id : Bytes) (w : W) → at n (sdk.start_container id w).0 ≡ at n w
  pub stop_at :
      (n id : Bytes) (timeout : Option ℤ) (w : W)
      → HasId id (at n w)
      → HasId id (at n (sdk.stop_container id timeout w).0)
  pub remove_at :
      (n id : Bytes) (force : Bool) (w : W)
      → HasId id (at n w)
      → Removed id (at n (sdk.remove_container id force w).0) (sdk.remove_container id force w).1

-- What is relied on of both: the calls of each leave what the other has alone, a file that was
-- removed is gone and one that was not is unchanged, and the record's text reads back as the record.
pub record WiredLaws {W : Type 0} (sdk : Sdk W) (fs : FileSystem W)
    (read_file : Bytes → W → W × RecordRead) (path : Bytes) (codec : Codec) : Type 0 where
  pub docker : DockerLaws sdk
  pub files : FileLaws fs path
  pub files_at : Steps fs (λ t. true) (λ w w'. (n : Bytes) → docker.at n w' ≡ docker.at n w)
  pub read_file_at : (n : Bytes) (w : W) → docker.at n (read_file path w).0 ≡ docker.at n w
  pub read_file_read : (w : W) → files.read path (read_file path w).0 ≡ files.read path w
  pub read_file_tells : (w : W) → ReadTells (files.read path w) (read_file path w).1
  pub remove_read :
      (w : W)
      → AfterClear (files.read path w) (files.read path (fs.remove path w).0) (fs.remove path w).1
  pub list_read :
      (all : Bool) (w : W) → files.read path (sdk.list_containers all w).0 ≡ files.read path w
  pub inspect_read :
      (id : Bytes) (w : W) → files.read path (sdk.inspect_container id w).0 ≡ files.read path w
  pub create_read :
      (r : CreateRequest) (w : W) → files.read path (sdk.create_container r w).0 ≡ files.read path w
  pub start_read :
      (id : Bytes) (w : W) → files.read path (sdk.start_container id w).0 ≡ files.read path w
  pub stop_read :
      (id : Bytes) (timeout : Option ℤ) (w : W)
      → files.read path (sdk.stop_container id timeout w).0 ≡ files.read path w
  pub remove_container_read :
      (id : Bytes) (force : Bool) (w : W)
      → files.read path (sdk.remove_container id force w).0 ≡ files.read path w
  pub decode-encode :
      (p : PendingReplacement) (t : Bytes) → codec.encode p ≡ some t → codec.decode t ≡ some p
