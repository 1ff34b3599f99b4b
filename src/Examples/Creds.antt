-- ===== src/Examples/Creds.antt =====
-- Credentials: a run, with the inspections counted, and the results at an input.
use gobackup_docker.Pipeline.Volumes.{find_mount_for_path, build_dest_map, mount_source}
use gobackup_docker.Base.{
  suc, ℕ, str_eq, refl, ◌≡◌, false, Option, some, List, [], ◌∷◌, Bytes, codes,
}
use gobackup_docker.Labels.{cred_env, cred_file}
use gobackup_docker.Render.Model.{ResolvedCred}
use gobackup_docker.Pipeline.Docker.{InspectResult, MountPoint}
use gobackup_docker.Pipeline.Creds.{resolve_creds}
use gobackup_docker.Pipeline.Creds.Secrets.{AreSettled, resolve_creds_lem}

abbrev secret_point : MountPoint
secret_point = record {
  type = codes "bind";
  name = [];
  source = codes "/srv/pw";
  destination = codes "/run/secrets/pw";
  rw = false;
}

abbrev client : InspectResult
client = record {
  id = codes "c1";
  name = codes "app";
  image = codes "app";
  command = [];
  env = codes "PWD=/" ∷ codes "PW=x=y" ∷ [];
  labels = [];
  mounts = secret_point ∷ [];
  networks = [];
}

abbrev inspect_client : Bytes → ℕ → ℕ × Option InspectResult
inspect_client id n = (suc n, some client)

abbrev creds : List ResolvedCred
creds =
    record { var = codes "GB_A"; kind = cred_env; ref = codes "PW"; container_id = codes "c1" }
    ∷ record {
      var = codes "GB_B";
      kind = cred_file;
      ref = codes "/run/secrets/pw";
      container_id = codes "c1";
    }
    ∷ []

resolve_runs :
    let r = resolve_creds inspect_client creds 0 in
    (r.0 ≡ 1) × (r.1.env_vars ≡ codes "GB_A=x=y" ∷ [])
unfolding resolve_creds str_eq find_mount_for_path build_dest_map mount_source
resolve_runs = (refl, refl)

resolve_creds_example : AreSettled (resolve_creds inspect_client creds 0).1
resolve_creds_example = resolve_creds_lem inspect_client creds 0
