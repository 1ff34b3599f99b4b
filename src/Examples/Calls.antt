-- ===== src/Examples/Calls.antt =====
-- A client that is made while the daemon cannot be reached.
use gobackup_docker.Base.{◌≡◌, arith, ℕ, suc, none, some, codes, refl, ◌-◌}
use gobackup_docker.Pipeline.Manage.Replace.{other}
use gobackup_docker.Pipeline.Docker.Calls.{DockerError, error, Sdk, new}
use gobackup_docker.Pipeline.Docker.Opened.{OpenLaws, Opens, new-Opens}

abbrev unreachable : DockerError
unreachable = record { text = codes "cannot connect"; class = other }

-- the state counts the open clients
abbrev sdk : Sdk ℕ
sdk = record {
  new_client = λ n. (suc n, none);
  ping = λ n. (n, some unreachable);
  close_client = λ n. (n - 1, none);
  info = λ n. (n, error unreachable);
  list_containers = λ all n. (n, error unreachable);
  inspect_container = λ id n. (n, error unreachable);
  create_container = λ r n. (n, error unreachable);
  start_container = λ id n. (n, some unreachable);
  stop_container = λ id timeout n. (n, some unreachable);
  remove_container = λ id force n. (n, some unreachable);
}

sdk-OpenLaws : OpenLaws sdk
sdk-OpenLaws = record {
  opened = λ n. n;
  make_opens = λ n. refl;
  ping_opens = λ n. refl;
  close_closes = λ n m e. omega arith;
}

new-Opens_example : Opens sdk-OpenLaws (sdk-OpenLaws.opened 2) (new sdk 2)
new-Opens_example = new-Opens sdk-OpenLaws 2

-- the third client is closed again
new_runs : (new sdk 2).0 ≡ 2
unfolding new
new_runs = refl
