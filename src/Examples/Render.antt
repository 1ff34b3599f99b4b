-- ===== src/Examples/Render.antt =====
-- Rendering: runs, and the results at an input.
use gobackup_docker.Render.Coerce.Limits.{coerce_scalar-decimal_int, is_int64, read_back}
use gobackup_docker.Render.Merge.Prune.{opt_out_lem, ArePruned, pruned}
use gobackup_docker.Render.Merge.Overlay.{overlaid}
use gobackup_docker.Render.Merge.{prune_opt_out, deep_merge}
use gobackup_docker.Render.Coerce.{parse_int, is_plain_int, is_protected_key, coerce_scalar}
use gobackup_docker.Render.Coerce.Numbers.{decimal_int, coerce_scalar_lem, is_int, Says}
use gobackup_docker.Render.Merge.{Engine}
use gobackup_docker.Render.Model.{Source, build}
use gobackup_docker.Render.Model.Names.{build_lem, first_built, HoldsValid}
use gobackup_docker.Tree.{pos, int, end, str, obj, field, lookup, Fields}
use gobackup_docker.Base.{
  ◌∷◌, Bytes, some, List, [], to_lower, ◌&&◌, str_eq, false, codes, refl, ◌≡◌,
}

abbrev base : Fields
base =
    field (codes "storages") (obj (field (codes "s3") (str (codes "x")) end))
      (field (codes "n") (str (codes "1")) end)

abbrev overlay : Fields
overlay = field (codes "storages") (obj (field (codes "s3") (str (codes "!none")) end)) end

opt_out_example :
    (lookup (codes "storages") (prune_opt_out (deep_merge base overlay))
      ≡ pruned (overlaid (lookup (codes "storages") base) (lookup (codes "storages") overlay)))
    × ArePruned (prune_opt_out (deep_merge base overlay))
unfolding lookup str_eq
opt_out_example =
    opt_out_lem base overlay (codes "storages") (refl, (refl, tt, tt), (refl, tt, tt))
      (refl, (refl, tt, tt), tt)

coerce_scalar_example :
    Says (codes "90") (coerce_scalar (codes "keep") (codes "90"))
    × ((is_protected_key (codes "keep") && is_int (coerce_scalar (codes "keep") (codes "90")))
        ≡ false)
coerce_scalar_example = coerce_scalar_lem (codes "keep") (codes "90") (λ e. cc)

coerce_scalar_runs : coerce_scalar (codes "keep") (codes "90") ≡ int (pos 90)
unfolding coerce_scalar str_eq to_lower is_protected_key is_plain_int parse_int
coerce_scalar_runs = refl

abbrev plain_engine : Engine
plain_engine s td = some s

abbrev model_of_labels : Bytes → Fields
model_of_labels id =
    field (codes "storages") (obj (field (codes "s3") (str id) end))
      (field (codes "archive") (obj end) end)

abbrev source : Bytes → Source
source id = record {
  container = codes "app";
  container_id = id;
  name = codes "m";
  profile = [];
  model = model_of_labels id;
  cred_refs = [];
}

abbrev sources : List Source
sources = source (codes "one") ∷ source (codes "two") ∷ []

build_example :
    (ms : Fields) × (build plain_engine [] (codes "host") [] sources
      ≡ field (codes "models") (obj ms) end)
    × (lookup (codes "m") ms ≡ first_built plain_engine [] (codes "host") [] (codes "m") sources)
    × HoldsValid (lookup (codes "m") ms)
build_example = build_lem plain_engine [] (codes "host") [] (codes "m") sources

coerce_scalar-decimal_int_example :
    coerce_scalar (codes "keep") (decimal_int (pos 99999999999999999999))
    ≡ read_back (is_int64 (pos 99999999999999999999)) (pos 99999999999999999999)
unfolding is_protected_key str_eq
coerce_scalar-decimal_int_example =
    coerce_scalar-decimal_int (codes "keep") refl (pos 99999999999999999999)
