-- ===== src/Render/Profiles.antt =====
-- internal/render/profiles.go: the profiles from defaults.yml. yaml.v3 is a parameter, `none` where
-- the text is malformed and `some none` where it is empty.
use gobackup_docker.Base.{Option, none, some, [], Bytes}
use gobackup_docker.Render.Model.{Profiles}

-- what os.ReadFile gave
pub data FileRead : Type 0 where
  missing : FileRead
  unreadable : FileRead
  content : Bytes → FileRead

unfoldable pub or_no_profiles : Option Profiles → Profiles
or_no_profiles none = []
or_no_profiles (some p) = p

module _ (unmarshal : Bytes → Option (Option Profiles)) where
  unfoldable pub unmarshalled : Option (Option Profiles) → Option Profiles
  unfolding or_no_profiles
  unmarshalled none = none
  unmarshalled (some p) = some (or_no_profiles p)

  -- `none` is an error
  unfoldable pub load_profiles : FileRead → Option Profiles
  unfolding unmarshalled
  load_profiles missing = some []
  load_profiles unreadable = none
  load_profiles (content text) = unmarshalled (unmarshal text)
