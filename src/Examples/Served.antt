-- ===== src/Examples/Served.antt =====
-- A request to the control plane after the first pass over one container.
use gobackup_docker.Render.Escape.{escape_bare_dollars}
use gobackup_docker.Webapi.{contains, replied, Request, perform}
use gobackup_docker.Supervisor.Loop.{fired, taken, ticked, started, off, Event, step}
use gobackup_docker.Supervisor.System.Served.{perform-Served, control_plane, PostForm, Served}
use gobackup_docker.Supervisor.System.{SystemRun, begin, looped, outcome, passed, pass, System}
use gobackup_docker.Container.{empty_config}
use gobackup_docker.Base.{true, false, none, List, ◌≡◌, refl, str_eq, [], ◌∷◌, codes, some}
use gobackup_docker.Labels.{parse, parse_label, parse_bool, set_path}
use gobackup_docker.Base.{split, contains_text}
use gobackup_docker.Base.Sort.{sort_texts}
use gobackup_docker.Pipeline.Docker.{Container}
use gobackup_docker.Tree.{keys}
use gobackup_docker.Render.Merge.{
  expand_fields, prune_opt_out, deep_merge, deep_copy_fields, expand_text,
}
use gobackup_docker.Render.Model.{
  model_name, build_model, resolve_profile, substitute_creds, is_valid_model,
}
use gobackup_docker.Render.Coerce.{
  is_plain_int, is_protected_key, coerce_scalar, is_array_field, coerce_text, coerce_fields,
}
use gobackup_docker.Apply.{atomic_write}
use gobackup_docker.Render.Model.{build_with_creds}
use gobackup_docker.Pipeline.Volumes.{dedup_mounts_by_target}
use gobackup_docker.Pipeline.Manage.Ensure.{ensure_gobackup_container}
use gobackup_docker.Pipeline.Reconcile.{Pass, World, reconcile}
use gobackup_docker.Examples.Ensure.{Disk, before}
use gobackup_docker.Examples.Reconcile.{world, settings, reconciler}

abbrev shop : Container
shop = record {
  id = codes "c1";
  name = codes "shop";
  labels =
      (codes "gobackup.enable", codes "true")
      ∷ (codes "gobackup.databases.main.type", codes "redis")
      ∷ (codes "gobackup.storages.local.path", codes "/backups")
      ∷ [];
}

abbrev shop_world : World Disk
shop_world = record world { list = λ w. (w, some (shop ∷ [])) }

first_pass_runs :
    let p = reconcile shop_world settings empty_config before reconciler in
    (p.2 ≡ true) × (p.1.status.models ≡ codes "shop-host" ∷ [])
unfolding reconcile ensure_gobackup_container str_eq atomic_write reconciler dedup_mounts_by_target
    build_with_creds parse parse_label split parse_bool keys set_path build_model resolve_profile
    expand_fields prune_opt_out deep_merge deep_copy_fields expand_text contains_text
    substitute_creds is_valid_model coerce_fields sort_texts coerce_text is_array_field
    coerce_scalar is_protected_key is_plain_int escape_bare_dollars model_name
first_pass_runs = (refl, refl)

abbrev Runs : List Event → System Disk → Type 0
Runs = SystemRun shop_world settings empty_config 1 (λ w w'. w' ≡ w) before reconciler

abbrev in_pass : System Disk
in_pass = record {
  outside = before;
  reconciler = reconciler;
  loop = record { pending = false; timer = off; running = true };
}

abbrev after_pass : System Disk
after_pass = record {
  outside = (pass shop_world settings empty_config in_pass).0;
  reconciler = (pass shop_world settings empty_config in_pass).1;
  loop = record { pending = false; timer = off; running = false };
}

abbrev first_pass : Pass shop_world settings empty_config
first_pass = pass shop_world settings empty_config in_pass

abbrev events : List Event
events = outcome first_pass.2 ∷ started ∷ ticked ∷ taken ∷ fired ∷ []

after_pass-Runs : Runs events after_pass
unfolding step
after_pass-Runs =
    passed
      (looped started
        (looped ticked (looped taken (looped fired begin refl refl) refl refl) refl refl) refl refl)
      (rw first_pass_runs.0 refl)

-- the request takes the engine away, so that it shows
abbrev post : PostForm Disk
post client url form w = ((none, none), replied 200 [])

abbrev request : Request
request = record { verb = codes "POST"; model = codes "shop-host" }

perform-Served_example :
    Served shop_world settings empty_config 1
      (λ w w'. w' ≡ w)
      (codes "http://gobackup:2703")
      post
      (λ s. [])
      (λ t. t)
      request
      after_pass
      (perform
        (control_plane (codes "http://gobackup:2703") post (λ s. []) (λ t. t))
        request
        after_pass)
unfolding reconciler
perform-Served_example =
    perform-Served shop_world settings empty_config 1 (λ w w'. w' ≡ w)
      (codes "http://gobackup:2703") post (λ s. []) (λ t. t) request before reconciler events
      after_pass refl after_pass-Runs

-- the request for the model of the container is sent
forwarded_runs :
    (perform
      (control_plane (codes "http://gobackup:2703") post (λ s. []) (λ t. t))
      request
      after_pass).1.status_code
    ≡ 200
unfolding perform control_plane contains str_eq
forwarded_runs = rw first_pass_runs.1 refl
