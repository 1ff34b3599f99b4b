-- ===== src/Pipeline/Reconcile/Dollar.antt =====
-- The sentinel of escaping, in the document and in the engine's environment.
use gobackup_docker.Base.{
  inl, inr, ◌⊎◌, ◌≡◌, refl, true, Option, List, ◌++◌, ◌∷◌, Bytes, str_eq_iff,
}
use gobackup_docker.Base.Dict.{Dict}
use gobackup_docker.Tree.{Fields}
use gobackup_docker.Render.Model.{ResolvedCred}
use gobackup_docker.Render.Escape.{dollar_sentinel_var, dollar_sentinel_value}
use gobackup_docker.Render.Escape.Config.Leaves.{FieldsEscaped, escape_config_lem}
use gobackup_docker.Pipeline.Docker.{InspectResult}
use gobackup_docker.Labels.{one_of}
use gobackup_docker.Pipeline.Reconcile.{moved, prepare, extras_of}

module _ {W : Type 0} (inspect : Bytes → W → W × Option InspectResult) (ids : Dict Bytes)
    (doc : Fields) (w : W) where
  pub prepare-FieldsEscaped : FieldsEscaped (prepare inspect ids doc w).1.document
  unfolding prepare
  prepare-FieldsEscaped = (escape_config_lem (moved inspect ids doc w).1).0

abbrev pub sentinel : Bytes
sentinel = dollar_sentinel_var ++ (b'=' ∷ dollar_sentinel_value)

-- With a container manager no text of the document would be escaped again, a []string aside, and
-- the document is the one with the paths moved or else the engine's environment sets the sentinel
-- variable to a '$', whatever the credentials are.
pub extras_of-prepare :
    {W : Type 0} (inspect : Bytes → W → W × Option InspectResult) (ids : Dict Bytes) (doc : Fields)
    (creds : List ResolvedCred) (w w' : W)
    → let p = (prepare inspect ids doc w).1 in
      FieldsEscaped p.document
      × ((p.document ≡ (moved inspect ids doc w).1)
          ⊎ (one_of sentinel (extras_of inspect p creds w').1.env_vars ≡ true))
unfolding prepare extras_of one_of
extras_of-prepare inspect ids doc creds w w' = (
  prepare-FieldsEscaped inspect ids doc w,
  elim ((escape_config_lem (moved inspect ids doc w).1).2) [
    | inl same ↦ inl same
    | inr e ↦ inr (rw e (rw ((str_eq_iff sentinel sentinel).1 refl) refl))
  ],
)
