-- ===== src/Pipeline/Creds/Secrets.antt =====
-- What the additions for credentials look like, and that resolving them keeps what inspections keep.
use gobackup_docker.Base.{
  Option-cases, inr, str_eq_iff, arith, inl, refl, Bool-cases, ◌≡◌, true, false, Option, none, some,
  List, [], ◌∷◌, ◌++◌, Bytes, All, str_eq, is_empty,
}
use gobackup_docker.Base.Dict.{Dict, get}
use gobackup_docker.Base.Prefix.{has_prefix-append}
use gobackup_docker.Labels.{CredKind, cred_env, cred_file}
use gobackup_docker.Render.Model.{ResolvedCred}
use gobackup_docker.Pipeline.Docker.{MountPoint, MountDef, InspectResult}
use gobackup_docker.Pipeline.Volumes.{mount_source, has_target, find_mount_for_path, build_dest_map}
use gobackup_docker.Pipeline.Volumes.Dedup.{AreDistinct}
use gobackup_docker.Pipeline.Manage.{SecretExport, secret_mount_prefix, is_managed_mount}
use gobackup_docker.Pipeline.Creds.{
  kept_in, ResolvedEngineCreds, lookup_env, add_env_cred, secret_target, with_secret, add_file_cred,
  add_cred, looked_up, no_creds, resolve_loop, resolve_creds,
}

-- each export reads the file that the mount of its place brings
abbrev pub AreExported : List MountDef → List SecretExport → Type 0
AreExported [] [] = Unit
AreExported (m ∷ ms) (e ∷ es) = (m.target ≡ e.path) × AreExported ms es
AreExported [] (e ∷ es) = ⊥
AreExported (m ∷ ms) [] = ⊥

abbrev pub AreSettled : ResolvedEngineCreds → Type 0
AreSettled out =
    All (λ (d : MountDef). is_managed_mount d.target ≡ true) out.secret_mounts
    × AreDistinct out.secret_mounts
    × AreExported out.secret_mounts out.secret_exports

All-behind :
    (P : MountDef → Type 0) (ms : List MountDef) (m : MountDef)
    → All P ms
    → P m
    → All P (ms ++ m ∷ [])
All-behind P [] m h p = (p, tt)
All-behind P (x ∷ ms) m h p = (h.0, All-behind P ms m h.1 p)

has_target-behind :
    (t : Bytes) (ms : List MountDef) (m : MountDef)
    → has_target t ms ≡ false
    → str_eq m.target t ≡ false
    → has_target t (ms ++ m ∷ []) ≡ false
unfolding has_target
has_target-behind t [] m h e = ground arith
has_target-behind t (x ∷ ms) m h e = ground (arith, has_target-behind t ms m)

AreDistinct-behind :
    (ms : List MountDef) (m : MountDef)
    → AreDistinct ms
    → has_target m.target ms ≡ false
    → AreDistinct (ms ++ m ∷ [])
unfolding has_target
AreDistinct-behind [] m h e = (refl, tt)
AreDistinct-behind (x ∷ ms) m h e = (
  has_target-behind x.target ms m h.0
      (ground (arith, str_eq_iff x.target m.target, str_eq_iff m.target x.target)),
  AreDistinct-behind ms m h.1 (ground arith),
)

AreExported-behind :
    (ms : List MountDef) (es : List SecretExport) (m : MountDef) (e : SecretExport)
    → AreExported ms es
    → m.target ≡ e.path
    → AreExported (ms ++ m ∷ []) (es ++ e ∷ [])
AreExported-behind [] [] m e h p = (p, tt)
AreExported-behind (x ∷ ms) (y ∷ es) m e h p = (h.0, AreExported-behind ms es m e h.1 p)
AreExported-behind [] (y ∷ es) m e h p = absurd h
AreExported-behind (x ∷ ms) [] m e h p = absurd h

secret_target-managed : (c : ResolvedCred) → is_managed_mount (secret_target c) ≡ true
unfolding is_managed_mount
secret_target-managed c = ground (arith, has_prefix-append secret_mount_prefix c.var)

with_secret-AreSettled :
    (c : ResolvedCred) (src : Bytes) (out : ResolvedEngineCreds)
    → AreSettled out
    → has_target (secret_target c) out.secret_mounts ≡ false
    → AreSettled (with_secret c src out)
unfolding with_secret
with_secret-AreSettled c src out (h, d, x) n = (
  All-behind _ out.secret_mounts _ h (secret_target-managed c),
  AreDistinct-behind out.secret_mounts _ d n,
  AreExported-behind out.secret_mounts out.secret_exports _ _ x refl,
)

add_file_cred-AreSettled :
    (c : ResolvedCred) (found : Option (MountPoint × Bytes)) (out : ResolvedEngineCreds)
    → AreSettled out
    → AreSettled (add_file_cred c found out)
unfolding add_file_cred
add_file_cred-AreSettled c none out h = h
add_file_cred-AreSettled c (some (mp, dst)) out h = elim (Bool-cases (is_empty (mount_source mp))) [
  | inl y ↦ rw y h
  | inr n ↦ rw n (elim (Bool-cases (has_target (secret_target c) out.secret_mounts)) [
    | inl y ↦ rw y h
    | inr k ↦ rw k (with_secret-AreSettled c (mount_source mp) out h k)
  ])
]

add_env_cred-AreSettled :
    (c : ResolvedCred) (val : Option Bytes) (out : ResolvedEngineCreds)
    → AreSettled out
    → AreSettled (add_env_cred c val out)
unfolding add_env_cred
add_env_cred-AreSettled c none out h = h
add_env_cred-AreSettled c (some val) out h = h

add_cred-AreSettled :
    (c : ResolvedCred) (info : Option InspectResult) (out : ResolvedEngineCreds)
    → AreSettled out
    → AreSettled (add_cred c info out)
unfolding add_cred
add_cred-AreSettled c none out h = h
add_cred-AreSettled c (some info) out h = of_kind c.kind
  where
    of_kind :
        (k : CredKind)
        → AreSettled (elim k [
          | cred_env ↦ add_env_cred c (lookup_env info.env c.ref) out
          | cred_file ↦ add_file_cred c (find_mount_for_path c.ref (build_dest_map info.mounts)) out
        ])
    of_kind cred_env = add_env_cred-AreSettled c _ out h
    of_kind cred_file = add_file_cred-AreSettled c _ out h

module _ {W : Type 0} (inspect : Bytes → W → W × Option InspectResult) where
  resolve_loop-AreSettled :
      (inspects : Dict InspectResult) (out : ResolvedEngineCreds) (creds : List ResolvedCred)
      (w : W)
      → AreSettled out
      → AreSettled (resolve_loop inspect inspects out creds w).1
  unfolding resolve_loop
  resolve_loop-AreSettled inspects out [] w h = h
  resolve_loop-AreSettled inspects out (c ∷ creds) w h =
      let found = looked_up inspect inspects c.container_id w in
      resolve_loop-AreSettled found.1 (add_cred c found.2 out) creds found.0
        (add_cred-AreSettled c found.2 out h)

  -- The secret mounts all stand under a managed prefix, no two of them at one target, and the
  -- exports read, each in its place, the targets of the mounts.
  pub resolve_creds_lem :
      (creds : List ResolvedCred) (w : W) → AreSettled (resolve_creds inspect creds w).1
  unfolding resolve_creds
  resolve_creds_lem creds w = resolve_loop-AreSettled [] no_creds creds w (tt, tt, tt)

  -- what every inspection keeps, the loop keeps
  module _ (P : W → Type 0) (step : (id : Bytes) (w : W) → P w → P (inspect id w).0) where
    kept_in-keeps :
        (inspects : Dict InspectResult) (id : Bytes) (a : W × Option InspectResult)
        → P a.0
        → P (kept_in inspect inspects id a).0
    unfolding kept_in
    kept_in-keeps inspects id (w, none) h = h
    kept_in-keeps inspects id (w, some info) h = h

    looked_up-keeps :
        (inspects : Dict InspectResult) (id : Bytes) (w : W)
        → P w
        → P (looked_up inspect inspects id w).0
    unfolding looked_up
    looked_up-keeps inspects id w h = elim (Option-cases (get id inspects)) [
      | inl n ↦ rw (n, looked_up) (kept_in-keeps inspects id (inspect id w) (step id w h))
      | inr (info, e) ↦ rw (e, looked_up) h
    ]

    resolve_loop-keeps :
        (inspects : Dict InspectResult) (out : ResolvedEngineCreds) (creds : List ResolvedCred)
        (w : W)
        → P w
        → P (resolve_loop inspect inspects out creds w).0
    unfolding resolve_loop
    resolve_loop-keeps inspects out [] w h = h
    resolve_loop-keeps inspects out (c ∷ creds) w h =
        let found = looked_up inspect inspects c.container_id w in
        resolve_loop-keeps found.1 (add_cred c found.2 out) creds found.0
          (looked_up-keeps inspects c.container_id w h)

    pub resolve_creds-keeps :
        (creds : List ResolvedCred) (w : W) → P w → P (resolve_creds inspect creds w).0
    unfolding resolve_creds
    resolve_creds-keeps creds w h = resolve_loop-keeps [] no_creds creds w h
