-- ===== src/Pipeline/Manage/Replace/Completion.antt =====
-- A run of the replacement against a Docker that does what it is asked comes to its end.
use gobackup_docker.Base.{◌≡◌, Bool, true, false, Option, none, some, Bytes, is_some}
use gobackup_docker.Pipeline.Docker.{InspectResult}
use gobackup_docker.Pipeline.Manage.Replace.{
  PendingReplacement, Failure, not_found, not_modified, other, Result, ok, failed, Manager,
}
use gobackup_docker.Pipeline.Manage.Replace.Recovery.{At, Daemon}

-- the container is there or it is not
abbrev pub is_answer : Result InspectResult → Bool
is_answer (ok c) = true
is_answer (failed not_found) = true
is_answer (failed not_modified) = false
is_answer (failed other) = false

-- the container is stopped, or was, or is gone
abbrev pub is_stopped : Option Failure → Bool
is_stopped (some other) = false
is_stopped _ = true

-- the container is removed, or was
abbrev pub is_removed : Option Failure → Bool
is_removed none = true
is_removed (some not_found) = true
is_removed (some not_modified) = false
is_removed (some other) = false

-- the container runs, or ran before
abbrev pub is_started : Option Failure → Bool
is_started none = true
is_started (some not_modified) = true
is_started (some not_found) = false
is_started (some other) = false

abbrev pub is_created : Result Bytes → Bool
is_created (ok id) = true
is_created (failed e) = false

-- Calls do what they are asked: a container that is there is found, stopped or started, one that
-- does not run is removed, one is made under a free name, and a file that is there is removed. `runs`
-- is whether the old container runs.
pub record Healthy {W : Type 0} {mgr : Manager W} {p : PendingReplacement} (d : Daemon mgr p)
    : Type 0 where
  pub inspect_answers : (w : W) → is_answer (mgr.inspect p.spec.name w).1 ≡ true
  pub runs : W → Bool
  pub stop_works :
      (w : W)
      → At p.old_id (d.holds w)
      → (is_stopped (mgr.stop p.old_id w).1 ≡ true) × (runs (mgr.stop p.old_id w).0 ≡ false)
  pub remove_works :
      (w : W)
      → At p.old_id (d.holds w)
      → runs w ≡ false
      → is_removed (mgr.remove p.old_id w).1 ≡ true
  pub create_works : (w : W) → d.holds w ≡ none → is_created (mgr.create p.spec w).1 ≡ true
  pub start_works :
      (w : W) (c : InspectResult) → d.holds w ≡ some c → is_started (mgr.start c.id w).1 ≡ true
  pub clear_works : (w : W) (text : Bytes) → d.file w ≡ some text → (mgr.remove_record w).1 ≡ true

module _ {W : Type 0} {mgr : Manager W} {p : PendingReplacement} (d : Daemon mgr p)
    (g : Healthy d) where
  abbrev Returns : W × Option Bytes → Type 0
  Returns wr = is_some wr.1 ≡ true
