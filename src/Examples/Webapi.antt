-- ===== src/Examples/Webapi.antt =====
-- Requests to the control plane, counted.
use gobackup_docker.Base.{none, false, str_eq, true, ℕ, suc, [], ◌∷◌, codes, refl, ◌≡◌}
use gobackup_docker.Pipeline.Reconcile.{Status}
use gobackup_docker.Webapi.{
  serve, cancelled, listen_ended, server_closed, listened, shut_down, returned, Request, Server,
  replied, perform, contains,
}

abbrev status : Status
status = record {
  instance_name = [];
  host_id = [];
  exposed_by_default = false;
  models = codes "shop" ∷ [];
  containers = 1;
  last_render_unix = 0;
  last_changed = true;
  has_last_error = false;
}

-- the state is the number of requests to gobackup
abbrev server : Server ℕ
server = record {
  status = λ n. status;
  gobackup_url = codes "http://gobackup:2703/";
  client = none;
  post_form = λ c url form n. (suc n, replied 200 (codes "{}"));
  encode_status = λ st. codes "{}";
  quoted = λ t. t;
}

abbrev request : Request
request = record { verb = codes "POST"; model = codes "shop" }

perform_runs : (perform server request 0).0 ≡ 1
unfolding perform contains str_eq
perform_runs = refl

-- the context ends while the server listens
serve_runs :
    serve (codes ":8080") (cancelled ∷ listen_ended server_closed ∷ cancelled ∷ [])
    ≡ listened (codes ":8080") 5 ∷ shut_down 5 ∷ returned none ∷ []
unfolding serve
serve_runs = refl
