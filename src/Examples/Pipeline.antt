-- ===== src/Examples/Pipeline.antt =====
-- The pipeline: runs, and the results at an input.
use gobackup_docker.Pipeline.Volumes.Lookup.{find_mount_lem, Answers}
use gobackup_docker.Pipeline.Volumes.{has_target, find_mount_for_path, dedup_mounts_by_target}
use gobackup_docker.Pipeline.Volumes.Dedup.{dedup_mounts_lem, writable, AreDistinct}
use gobackup_docker.Labels.{one_of}
use gobackup_docker.Pipeline.Docker.{MountDef, MountPoint}
use gobackup_docker.Pipeline.Manage.Shell.{wrap_command_lem, Runs}
use gobackup_docker.Base.Dict.{Dict, get}
use gobackup_docker.Pipeline.Manage.Env.{one_of-merge_env}
use gobackup_docker.Pipeline.Manage.{
  env_keys, env_key, merge_env, wrap_command_with_secrets, SecretExport,
}
use gobackup_docker.Base.{
  In, not, All, ◌&&◌, trim_slashes, ◌||◌, str_eq_iff, str_eq, true, false, [], ◌∷◌, Bytes, codes,
  refl, ◌≡◌, arith,
}

abbrev data_mount : MountDef
data_mount = record {
  type = codes "volume";
  source = codes "data";
  target = codes "/volumes/m/data";
  read_only = true;
}

abbrev data_mount_rw : MountDef
data_mount_rw = record data_mount { read_only = false }

dedup_mounts_example :
    let ms = data_mount ∷ data_mount_rw ∷ [] in
    AreDistinct (dedup_mounts_by_target ms)
    × (has_target (codes "/volumes/m/data") (dedup_mounts_by_target ms)
        ≡ has_target (codes "/volumes/m/data") ms)
    × (writable (codes "/volumes/m/data") (dedup_mounts_by_target ms)
        ≡ writable (codes "/volumes/m/data") ms)
    × All (λ x. In x ms) (dedup_mounts_by_target ms)
dedup_mounts_example = dedup_mounts_lem (data_mount ∷ data_mount_rw ∷ []) (codes "/volumes/m/data")

abbrev point : MountPoint
point = record {
  type = codes "volume";
  name = codes "data";
  source = codes "/var/lib/docker/volumes/data/_data";
  destination = codes "/data";
  rw = true;
}

abbrev deep_point : MountPoint
deep_point = record point { name = codes "deep"; destination = codes "/data/db" }

abbrev mounts : Dict MountPoint
mounts = (codes "/data", point) ∷ (codes "/data/db", deep_point) ∷ []

abbrev mounts_back : Dict MountPoint
mounts_back = (codes "/data/db", deep_point) ∷ (codes "/data", point) ∷ []

find_mount_example :
    Answers
      (trim_slashes (codes "/data/db/x/"))
      mounts
      (find_mount_for_path (codes "/data/db/x/") mounts)
unfolding get str_eq
find_mount_example = find_mount_lem (codes "/data/db/x/") mounts (refl, (refl, tt))

same_mounts : (k : Bytes) → get k mounts ≡ get k mounts_back
unfolding get
same_mounts k = ground (arith, str_eq_iff (codes "/data") k, str_eq_iff (codes "/data/db") k)

abbrev secret : SecretExport
secret = record { var = codes "GB_M_PASSWORD"; path = codes "/gobackup-secrets/GB_M_PASSWORD" }

wrap_command_example :
    Runs
      (codes "gobackup" ∷ codes "run" ∷ [])
      (secret ∷ [])
      (wrap_command_with_secrets (codes "gobackup" ∷ codes "run" ∷ []) (secret ∷ []))
wrap_command_example = wrap_command_lem (codes "gobackup" ∷ codes "run" ∷ []) (secret ∷ [])

one_of-merge_env_example :
    one_of (codes "TZ=UTC") (merge_env (codes "TZ=UTC" ∷ codes "PW=old" ∷ []) (codes "PW=new" ∷ []))
    ≡ (one_of (codes "TZ=UTC") (codes "PW=new" ∷ [])
        || one_of (codes "TZ=UTC") (codes "TZ=UTC" ∷ codes "PW=old" ∷ [])
          && not (one_of (env_key (codes "TZ=UTC")) (env_keys (codes "PW=new" ∷ []))))
one_of-merge_env_example =
    one_of-merge_env (codes "TZ=UTC" ∷ codes "PW=old" ∷ []) (codes "PW=new" ∷ []) (codes "TZ=UTC")
