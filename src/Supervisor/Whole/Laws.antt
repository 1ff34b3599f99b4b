-- ===== src/Supervisor/Whole/Laws.antt =====
-- What is relied on of the SDK, the file system and the rest together, and that it is enough for the
-- passes and for main.
use gobackup_docker.Pipeline.Reconcile.{World}
use gobackup_docker.Base.{
  ◌≡◌, refl, ap, ◌∙◌, Bool, true, false, not, List, Bytes, codes, str_eq, str_eq_iff, length,
  length-append, Bool-cases, inl, inr, arith,
}
use gobackup_docker.Apply.{FileSystem}
use gobackup_docker.Apply.Steps.{Steps}
use gobackup_docker.Pipeline.Docker.Client.{Summary}
use gobackup_docker.Pipeline.Docker.Calls.{Answer, done, error, Sdk, answered_list, list}
use gobackup_docker.Pipeline.Manage.Ensure.{RecordRead, Codec}
use gobackup_docker.Pipeline.Manage.Wired.{pending_path}
use gobackup_docker.Pipeline.Manage.Wired.Laws.{WiredLaws}
use gobackup_docker.Pipeline.Manage.Wired.Replacing.{seen}
use gobackup_docker.Pipeline.Manage.Wired.Safety.{wired_HostLaws}
use gobackup_docker.Pipeline.Reconcile.Recovery.{Alike, WorldLaws}
use gobackup_docker.Supervisor.Whole.{World, Parts, as_option, wired_world}

-- the files that are not the record's
abbrev pub is_apart : Bytes → Bytes → Bool
is_apart output t = not (str_eq t (pending_path output))

-- no container and not the file of the record is touched
abbrev pub Untouched :
    {W : Type 0} {sdk : Sdk W} {fs : FileSystem W} {read_file : Bytes → W → W × RecordRead}
    {path : Bytes} {codec : Codec}
    → WiredLaws sdk fs read_file path codec
    → W
    → W
    → Type 0
Untouched {path = path} wired w w' =
    ((n : Bytes) → wired.docker.at n w' ≡ wired.docker.at n w)
    × (wired.files.read path w' ≡ wired.files.read path w)

-- The wired parts do what is relied on; a temporary file is another one than the record's, and what
-- is done to other files leaves that one alone; reading the profiles, making and closing a client, a
-- ping and the daemon's info touch neither that file nor a container.
pub record WholeLaws {W : Type 0} (sdk : Sdk W) (fs : FileSystem W)
    (read_file : Bytes → W → W × RecordRead) (parts : Parts W) (output : Bytes) : Type 0 where
  pub wired : WiredLaws sdk fs read_file (pending_path output) parts.codec
  pub files_read :
      Steps fs (is_apart output) (λ w w'.
        wired.files.read (pending_path output) w' ≡ wired.files.read (pending_path output) w)
  pub load_leaves : (w : W) → Untouched wired w (parts.load_profiles w).0
  pub make_leaves : (w : W) → Untouched wired w (sdk.new_client w).0
  pub ping_leaves : (w : W) → Untouched wired w (sdk.ping w).0
  pub close_leaves : (w : W) → Untouched wired w (sdk.close_client w).0
  pub info_leaves : (w : W) → Untouched wired w (sdk.info w).0

-- the config is another file than the record beside it
pub output-apart : (output : Bytes) → is_apart output output ≡ true
output-apart output = elim (Bool-cases (str_eq output (pending_path output))) [
  | inr n ↦ rw n refl
  | inl y ↦
      let e : length output ≡ length (pending_path output) =
        ap length ((str_eq_iff output (pending_path output)).0 y) in
      absurd (omega (arith, length-append output (codes ".container.json")))
]

as_option_left :
    {W : Type 0} (sdk : Sdk W) (what : Bytes) (a : W × Answer (List Summary))
    → (as_option (answered_list sdk what a)).0 ≡ a.0
unfolding answered_list
as_option_left sdk what (w, done c) = refl
as_option_left sdk what (w, error e) = refl

module _ {W : Type 0} {sdk : Sdk W} {fs : FileSystem W} {read_file : Bytes → W → W × RecordRead}
    {parts : Parts W} {output : Bytes} (laws : WholeLaws sdk fs read_file parts output) where
  abbrev pub whole : World W
  whole = wired_world sdk fs read_file parts output

  list_left : (w : W) → (as_option (list sdk w)).0 ≡ (sdk.list_containers false w).0
  unfolding list
  list_left w = as_option_left sdk (codes "list containers") (sdk.list_containers false w)

  -- what leaves each container and the record leaves what is seen of them
  pub alike :
      (w w' : W)
      → ((n : Bytes) → laws.wired.docker.at n w' ≡ laws.wired.docker.at n w)
      → laws.wired.files.read (pending_path output) w'
        ≡ laws.wired.files.read (pending_path output) w
      → Alike whole (wired_HostLaws laws.wired) w w'
  unfolding wired_HostLaws
  alike w w' h k = (λ n. ap seen (h n), k)

  pub files-Alike : Steps fs (is_apart output) (Alike whole (wired_HostLaws laws.wired))
  files-Alike =
      let at = laws.wired.files_at in
      let read = laws.files_read in
      record {
        same = λ w. (λ n. refl, refl);
        then_ = λ u v w h k. (λ n. k.0 n ∙ h.0 n, k.1 ∙ h.1);
        temp_apart = read.temp_apart;
        create_temp = λ p q w. alike w _ (at.create_temp p q w) (read.create_temp p q w);
        write = λ t text w a. alike w _ (at.write t text w refl) (read.write t text w a);
        chmod = λ t mode w. alike w _ (at.chmod t mode w) (read.chmod t mode w);
        sync = λ t w. alike w _ (at.sync t w) (read.sync t w);
        close = λ t w. alike w _ (at.close t w) (read.close t w);
        rename = λ t p w a b. alike w _ (at.rename t p w refl refl) (read.rename t p w a b);
        remove = λ t w a. alike w _ (at.remove t w refl) (read.remove t w a);
        open_dir = λ p w. alike w _ (at.open_dir p w) (read.open_dir p w);
        sync_dir = λ p w. alike w _ (at.sync_dir p w) (read.sync_dir p w);
        close_dir = λ p w. alike w _ (at.close_dir p w) (read.close_dir p w);
      }

  pub list-Alike : (w : W) → Alike whole (wired_HostLaws laws.wired) w (as_option (list sdk w)).0
  list-Alike w =
      alike w _
        (λ n. ap (laws.wired.docker.at n) (list_left w) ∙ laws.wired.docker.list_at n false w)
        (ap (laws.wired.files.read (pending_path output)) (list_left w)
          ∙ laws.wired.list_read false w)

  pub load-Alike : (w : W) → Alike whole (wired_HostLaws laws.wired) w (parts.load_profiles w).0
  load-Alike w = alike w _ (laws.load_leaves w).0 (laws.load_leaves w).1

  unfoldable pub whole_WorldLaws : WorldLaws whole
  whole_WorldLaws = record {
    host_laws = wired_HostLaws laws.wired;
    list_alike = list-Alike;
    load_alike = load-Alike;
    apart = is_apart output;
    files_alike = files-Alike;
  }
