-- ===== src/Pipeline/Docker/Shown.antt =====
-- A container that was created, inspected.
use gobackup_docker.Base.{true, false, some, ◌++◌, Bytes, codes, is_empty, All, ◌≡◌, refl}
use gobackup_docker.Base.Dict.{get}
use gobackup_docker.Labels.{one_of}
use gobackup_docker.Pipeline.Docker.Client.{trim_prefix, RawConfig, RawContainer, CreateRequest}

-- What Docker shows of a container that the request made: the name behind a slash, the image, the
-- command if the request has one, and all entries of the environment and all labels of the request,
-- among those that come from the image.
pub record IsShown (request : CreateRequest) (raw : RawContainer) : Type 0 where
  pub config : RawConfig
  pub has_config : raw.config ≡ some config
  pub name_shown : raw.name ≡ codes "/" ++ request.name
  pub image_shown : config.image ≡ request.config.image
  pub cmd_shown : is_empty request.config.cmd ≡ false → config.cmd ≡ request.config.cmd
  pub env_shown : All (λ (e : Bytes). one_of e config.env ≡ true) request.config.env
  pub labels_shown :
      (k v : Bytes) → get k request.config.labels ≡ some v → get k config.labels ≡ some v

pub trim_slash : (s t : Bytes) → t ≡ codes "/" ++ s → trim_prefix t (codes "/") ≡ s
unfolding trim_prefix
trim_slash s t e = rw e refl
