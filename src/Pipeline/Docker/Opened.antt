-- ===== src/Pipeline/Docker/Opened.antt =====
-- The connections that New leaves open.
use gobackup_docker.Base.{ℕ, suc, Option, none, some, ◌≡◌, ◌∙◌}
use gobackup_docker.Pipeline.Docker.Calls.{DockerError, Sdk, pinged, client_made, new}

abbrev AfterMake : ℕ → ℕ → Option DockerError → Type 0
AfterMake before after none = after ≡ suc before
AfterMake before after (some e) = after ≡ before

-- `opened` counts the clients that are open: a client that was made is open, a ping opens and
-- closes none, and Close closes one, also where it reports an error.
pub record OpenLaws {W : Type 0} (sdk : Sdk W) : Type 0 where
  pub opened : W → ℕ
  pub make_opens : (w : W) → AfterMake (opened w) (opened (sdk.new_client w).0) (sdk.new_client w).1
  pub ping_opens : (w : W) → opened (sdk.ping w).0 ≡ opened w
  pub close_closes : (n : ℕ) (w : W) → opened w ≡ suc n → opened (sdk.close_client w).0 ≡ n

module _ {W : Type 0} {sdk : Sdk W} (laws : OpenLaws sdk) where
  abbrev pub Opens : ℕ → W × Option DockerError → Type 0
  Opens before (w, e) = AfterMake before (laws.opened w) e

  pinged-Opens :
      (before : ℕ) (a : W × Option DockerError)
      → laws.opened a.0 ≡ suc before
      → Opens before (pinged sdk a)
  unfolding pinged
  pinged-Opens before (w, none) h = h
  pinged-Opens before (w, some e) h = laws.close_closes before w h

  made-Opens :
      (before : ℕ) (a : W × Option DockerError)
      → AfterMake before (laws.opened a.0) a.1
      → Opens before (client_made sdk a)
  unfolding client_made
  made-Opens before (w, none) h = pinged-Opens before (sdk.ping w) (laws.ping_opens w ∙ h)
  made-Opens before (w, some e) h = h

  -- New leaves one more client open where it ends without an error, and as many as before where it
  -- ends with one.
  pub new-Opens : (w : W) → Opens (laws.opened w) (new sdk w)
  unfolding new
  new-Opens w = made-Opens (laws.opened w) (sdk.new_client w) (laws.make_opens w)
