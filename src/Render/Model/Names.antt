-- ===== src/Render/Model/Names.antt =====
-- Which models the document holds, and under which names.
use gobackup_docker.Base.{
  ◌∙◌, codes, sym, str_eq_iff, inl, refl, inr, Bool-cases, ◌≡◌, Bool, true, false, Option, none,
  some, List, [], ◌∷◌, Bytes, str_eq, is_some, if◌then◌else◌,
}
use gobackup_docker.Tree.{Value, obj, Fields, end, field, lookup, insert}
use gobackup_docker.Tree.Laws.{lookup-insert}
use gobackup_docker.Render.Merge.{Engine}
use gobackup_docker.Render.Model.{
  Source, Profiles, ResolvedCred, model_name, resolve_profile, is_valid_model, build_model,
  validated, finish_model, merge_model, add_model, build_source, build_sources, build_with_creds,
  build,
}

-- a model of the document passes validateModel
abbrev pub HoldsValid : Option Value → Type 0
HoldsValid (some (obj m)) = is_valid_model m ≡ true
HoldsValid (some _) = ⊥
HoldsValid none = Unit

abbrev pub or_else : Option Value → Option Value → Option Value
or_else (some v) o = some v
or_else none o = o

abbrev pub as_model : Option (Fields × List ResolvedCred) → Option Value
as_model none = none
as_model (some (m, creds)) = some (obj m)

module _ (engine : Engine) (profiles : Profiles) (host_id instance_name : Bytes) where
  abbrev pub source_name : Source → Bytes
  source_name src = model_name src.container src.name host_id

  -- the model of the first source of the name that has one
  abbrev pub first_built : Bytes → List Source → Option Value
  first_built n [] = none
  first_built n (src ∷ sources) =
      let rest = first_built n sources in
      if str_eq (source_name src) n
      then or_else (as_model (build_model engine profiles host_id instance_name src)) rest
      else rest

  or_else-HoldsValid : (a b : Option Value) → HoldsValid a → HoldsValid b → HoldsValid (or_else a b)
  or_else-HoldsValid none b h k = k
  or_else-HoldsValid (some v) b h k = h

  validated-HoldsValid :
      (o : Option (Fields × List ResolvedCred))
      → HoldsValid (as_model (validated engine profiles host_id instance_name o))
  unfolding validated
  validated-HoldsValid none = tt
  validated-HoldsValid (some (m, creds)) = elim (Bool-cases (is_valid_model m)) [
    | inl y ↦ rw y y
    | inr n ↦ rw n tt
  ]

  finish_model-HoldsValid :
      (src : Source) (o : Option Fields)
      → HoldsValid (as_model (finish_model engine profiles host_id instance_name src o))
  unfolding finish_model
  finish_model-HoldsValid src none = tt
  finish_model-HoldsValid src (some x) = validated-HoldsValid _

  merge_model-HoldsValid :
      (src : Source) (o : Option Fields)
      → HoldsValid (as_model (merge_model engine profiles host_id instance_name src o))
  unfolding merge_model
  merge_model-HoldsValid src none = tt
  merge_model-HoldsValid src (some base) = finish_model-HoldsValid src _

  build_model-HoldsValid :
      (src : Source) → HoldsValid (as_model (build_model engine profiles host_id instance_name src))
  unfolding build_model
  build_model-HoldsValid src = merge_model-HoldsValid src (resolve_profile profiles src)

  first_built-HoldsValid : (n : Bytes) (sources : List Source) → HoldsValid (first_built n sources)
  first_built-HoldsValid n [] = tt
  first_built-HoldsValid n (src ∷ sources) =
      let rest = first_built-HoldsValid n sources in
      elim (Bool-cases (str_eq (source_name src) n)) [
        | inl y ↦ rw y (or_else-HoldsValid _ _ (build_model-HoldsValid src) rest)
        | inr k ↦ rw k rest
      ]

  or_else-none : (o : Option Value) → o ≡ or_else o none
  or_else-none none = refl
  or_else-none (some v) = refl

  or_else_skip :
      (b : Bool) (a o : Option Value) → or_else a (if b then or_else none o else o) ≡ or_else a o
  or_else_skip true a o = refl
  or_else_skip false a o = refl

  or_else_some : (a o : Option Value) → is_some a ≡ true → or_else a o ≡ a
  or_else_some none o h = cc
  or_else_some (some v) o h = refl

  or_else_free : (a o : Option Value) → is_some a ≡ false → or_else a o ≡ o
  or_else_free none o h = refl
  or_else_free (some v) o h = cc

  -- a name that is taken stays with its model
  taken :
      (n name : Bytes) (ms : Fields) (o rest : Option Value)
      → is_some (lookup name ms) ≡ true
      → or_else (lookup n ms) rest
        ≡ or_else (lookup n ms) (if str_eq name n then or_else o rest else rest)
  taken n name ms o rest h = elim (Bool-cases (str_eq name n)) [
    | inr k ↦ rw k refl
    | inl y ↦
        let t : is_some (lookup n ms) ≡ true = rw ((str_eq_iff name n).0 y) at h in
        or_else_some (lookup n ms) _ t ∙ sym (or_else_some (lookup n ms) _ t)
  ]

  -- a free name gets the model
  free :
      (n name : Bytes) (ms : Fields) (v : Value) (rest : Option Value)
      → is_some (lookup name ms) ≡ false
      → or_else (lookup n (insert name v ms)) rest
        ≡ or_else (lookup n ms) (if str_eq name n then or_else (some v) rest else rest)
  free n name ms v rest h = rw (lookup-insert name n v ms) (elim (Bool-cases (str_eq name n)) [
    | inr k ↦ rw k refl
    | inl y ↦
        let f : is_some (lookup n ms) ≡ false = rw ((str_eq_iff name n).0 y) at h in
        rw y (sym (or_else_free (lookup n ms) (some v) f))
  ])

  -- one round of the loop
  built_model :
      (n name : Bytes) (acc : Fields × List ResolvedCred) (o : Option (Fields × List ResolvedCred))
      (rest : Option Value)
      → or_else (lookup n (add_model engine profiles host_id instance_name name acc o).0) rest
        ≡ or_else (lookup n acc.0) (if str_eq name n then or_else (as_model o) rest else rest)
  unfolding add_model
  built_model n name acc none rest = sym (or_else_skip (str_eq name n) (lookup n acc.0) rest)
  built_model n name (ms, cs) (some (m, new)) rest = elim (Bool-cases (is_some (lookup name ms))) [
    | inl y ↦ rw y (taken n name ms (some (obj m)) rest y)
    | inr k ↦ rw k (free n name ms (obj m) rest k)
  ]

  built_models :
      (n : Bytes) (acc : Fields × List ResolvedCred) (sources : List Source)
      → lookup n (build_sources engine profiles host_id instance_name acc sources).0
        ≡ or_else (lookup n acc.0) (first_built n sources)
  unfolding build_sources build_source
  built_models n acc [] = or_else-none _
  built_models n acc (src ∷ sources) =
      built_models n (build_source engine profiles host_id instance_name acc src) sources
      ∙ built_model n (source_name src) acc (build_model engine profiles host_id instance_name src)
          (first_built n sources)

  -- Under each name the document holds the model of the first source of the name that has one, no
  -- model where there is none, and each model that it holds passes validateModel.
  pub build_lem :
      (n : Bytes) (sources : List Source)
      → (ms : Fields) × (build engine profiles host_id instance_name sources
          ≡ field (codes "models") (obj ms) end)
        × (lookup n ms ≡ first_built n sources)
        × HoldsValid (lookup n ms)
  unfolding build build_with_creds lookup
  build_lem n sources =
      let e = built_models n (end, []) sources in
      (
        (build_sources engine profiles host_id instance_name (end, []) sources).0,
        refl,
        e,
        rw e (first_built-HoldsValid n sources),
      )
