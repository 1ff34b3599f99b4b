-- ===== src/Pipeline/Manage/Stable.antt =====
-- A created engine needs no recreation.
pub mod Created
use gobackup_docker.Base.{
  sym, inr, inl, fields, Bool-cases, refl, str_eq_iff, ◌∙◌, ◌≡◌, true, false, some, List, [], ◌∷◌,
  ◌++◌, Bytes, All, is_empty,
}
use gobackup_docker.Base.Dict.{get, get-put}
use gobackup_docker.Labels.{one_of}
use gobackup_docker.Container.{Config}
use gobackup_docker.Pipeline.Docker.{InspectResult, ContainerSpec, MountDef}
use gobackup_docker.Pipeline.Manage.{
  Json, SecretExport, base_cmd_label, base_command, decode_base_cmd, build_gobackup_spec,
  engine_spec, needs_recreate, slices_equal, all_contained, is_managed_mount, merge_env,
  is_managed_mount,
}
use gobackup_docker.Pipeline.Manage.Mounts.{Reports, mounts_equal-merge_mounts}

-- What an inspection shows of a container that was created from a spec: its command, at least its
-- environment, its base-command label, its mounts in some order.
pub record Shows (spec : ContainerSpec) (c : InspectResult) : Type 0 where
  pub command : c.command ≡ spec.command
  pub env : All (λ (e : Bytes). one_of e c.env ≡ true) spec.env
  pub base : get base_cmd_label c.labels ≡ get base_cmd_label spec.labels
  pub mounts : Reports c.mounts spec.mounts

slices_equal_self : (a : List Bytes) → slices_equal a a ≡ true
unfolding slices_equal
slices_equal_self [] = refl
slices_equal_self (x ∷ a) = rw ((str_eq_iff x x).1 refl) (slices_equal_self a)

all_contained-All :
    (env vars : List Bytes)
    → All (λ (e : Bytes). one_of e env ≡ true) vars
    → all_contained env vars ≡ true
unfolding all_contained
all_contained-All env [] h = refl
all_contained-All env (v ∷ vars) h = rw h.0 (all_contained-All env vars h.1)

All-append_behind : (P : Bytes → Type 0) (xs ys : List Bytes) → All P (xs ++ ys) → All P ys
All-append_behind P [] ys h = h
All-append_behind P (x ∷ xs) ys h = All-append_behind P xs ys h.1

-- every credential is in the merged environment
All-merge_env :
    (P : Bytes → Type 0) (base creds : List Bytes) → All P (merge_env base creds) → All P creds
unfolding merge_env
All-merge_env P base [] h = tt
All-merge_env P base (c ∷ creds) h = All-append_behind P _ (c ∷ creds) h

decode_lem :
    (json : Json) (t : Bytes) (b : List Bytes)
    → is_empty t ≡ false
    → json.unmarshal t ≡ some b
    → is_empty b ≡ false
    → decode_base_cmd json t ≡ some b
unfolding decode_base_cmd
decode_lem json t b m u h = rw (m, u, h) refl

base_command_set :
    (json : Json) (cfg : Config) (e : InspectResult)
    → is_empty cfg.command ≡ false
    → base_command json cfg e ≡ fields cfg.command
unfolding base_command
base_command_set json cfg e n = rw n refl

base_command_recorded :
    (json : Json) (cfg : Config) (e : InspectResult) (t : Bytes) (b : List Bytes)
    → is_empty cfg.command ≡ true
    → get base_cmd_label e.labels ≡ some t
    → decode_base_cmd json t ≡ some b
    → base_command json cfg e ≡ b
unfolding base_command
base_command_recorded json cfg e t b y g d = rw (y, g, d) refl

module _ (json : Json) (cfg : Config) (old new : InspectResult) (ms : List MountDef)
    (vars : List Bytes) (exports : List SecretExport) where
  pub get-base :
      get base_cmd_label (engine_spec json cfg old ms vars exports).labels
      ≡ some (json.marshal (base_command json cfg old))
  unfolding engine_spec build_gobackup_spec
  get-base =
      get-put base_cmd_label base_cmd_label _ _
      ∙ rw ((str_eq_iff base_cmd_label base_cmd_label).1 refl)

  base_again :
      json.unmarshal (json.marshal (base_command json cfg old)) ≡ some (base_command json cfg old)
      → is_empty (json.marshal (base_command json cfg old)) ≡ false
      → is_empty (base_command json cfg old) ≡ false
      → Shows (engine_spec json cfg old ms vars exports) new
      → base_command json cfg new ≡ base_command json cfg old
  base_again u m b s = elim (Bool-cases (is_empty cfg.command)) [
    | inl y ↦
        base_command_recorded json cfg new _ _ y (s.base ∙ get-base) (decode_lem json _ _ m u b)
    | inr n ↦ base_command_set json cfg new n ∙ sym (base_command_set json cfg old n)
  ]

  -- Created from the spec that was made for an older engine, with managed mounts to add and a base
  -- command that is not empty and that its JSON text gives back, the new engine, as an inspection
  -- shows it, needs no recreation for the spec that is made for it from the same labels, mounts and credentials.
  pub needs_recreate-engine_spec :
      json.unmarshal (json.marshal (base_command json cfg old)) ≡ some (base_command json cfg old)
      → is_empty (json.marshal (base_command json cfg old)) ≡ false
      → is_empty (base_command json cfg old) ≡ false
      → All (λ (d : MountDef). is_managed_mount d.target ≡ true) ms
      → Shows (engine_spec json cfg old ms vars exports) new
      → needs_recreate new (engine_spec json cfg new ms vars exports) vars ≡ false
  unfolding needs_recreate engine_spec build_gobackup_spec
  needs_recreate-engine_spec u m b h s =
      let c = base_again u m b s in
      rw
        (
          mounts_equal-merge_mounts old.mounts new.mounts ms h s.mounts,
          c,
          s.command,
          slices_equal_self,
        )
        (rw (all_contained-All new.env vars (All-merge_env _ _ vars s.env)) refl)
