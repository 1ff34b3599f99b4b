-- ===== src/Pipeline/Discover/Sources.antt =====
-- Which containers contribute, and which one a model's name leads to.
use gobackup_docker.Base.{
  append_assoc, inr, append-nil, inl, ◌∙◌, sym, Bool-cases, refl, ◌≡◌, Bool, true, false, ◌&&◌,
  Option, none, some, List, [], ◌∷◌, ◌++◌, Bytes, str_eq, if◌then◌else◌,
}
use gobackup_docker.Base.Dict.{Dict, get, put, get-put}
use gobackup_docker.Render.Model.{Source}
use gobackup_docker.Pipeline.Docker.{Container}
use gobackup_docker.Pipeline.Discover.{
  Settings, is_admitted, as_source, parsed, name_of, collect_sources,
}

abbrev pub first_of : Option Bytes → Option Bytes → Option Bytes
first_of (some id) o = some id
first_of none o = o

module _ (cfg : Settings) where
  -- the sources of the containers that are admitted, in their order
  pub admitted_sources : List Container → List Source
  admitted_sources [] = []
  admitted_sources (c ∷ cs) =
      let rest = admitted_sources cs in
      if is_admitted cfg (parsed cfg c) then as_source c (parsed cfg c) ∷ rest else rest

  -- the id of the last container that is admitted under a name
  pub last_id : Bytes → List Container → Option Bytes
  last_id n [] = none
  last_id n (c ∷ cs) =
      first_of (last_id n cs)
        (if is_admitted cfg (parsed cfg c) && str_eq (name_of cfg c) n then some c.id else none)

  first_of_assoc :
      (a : Option Bytes) (b : Bool) (id : Bytes) (o : Option Bytes)
      → first_of a (if b then some id else o)
        ≡ first_of (first_of a (if b then some id else none)) o
  first_of_assoc none true id o = refl
  first_of_assoc none false id o = refl
  first_of_assoc (some x) b id o = refl

  first_of-none : (a o : Option Bytes) → first_of a o ≡ first_of (first_of a none) o
  first_of-none none o = refl
  first_of-none (some x) o = refl

  first_of_nothing : (a : Option Bytes) → a ≡ first_of a none
  first_of_nothing none = refl
  first_of_nothing (some x) = refl

  collected_sources :
      (sources : List Source) (ids : Dict Bytes) (cs : List Container)
      → (collect_sources cfg (sources, ids) cs).0 ≡ sources ++ admitted_sources cs
  unfolding collect_sources admitted_sources
  collected_sources sources ids [] = sym (append-nil sources)
  collected_sources sources ids (c ∷ cs) = elim (Bool-cases (is_admitted cfg (parsed cfg c))) [
    | inl y ↦ rw y (
        collected_sources (sources ++ as_source c (parsed cfg c) ∷ [])
          (put (name_of cfg c) c.id ids) cs
        ∙ append_assoc sources (as_source c (parsed cfg c) ∷ []) (admitted_sources cs))
    | inr n ↦ rw n (collected_sources sources ids cs)
  ]

  collected_ids :
      (n : Bytes) (sources : List Source) (ids : Dict Bytes) (cs : List Container)
      → get n (collect_sources cfg (sources, ids) cs).1 ≡ first_of (last_id n cs) (get n ids)
  unfolding collect_sources last_id
  collected_ids n sources ids [] = refl
  collected_ids n sources ids (c ∷ cs) = elim (Bool-cases (is_admitted cfg (parsed cfg c))) [
    | inl y ↦ rw y (
        collected_ids n (sources ++ as_source c (parsed cfg c) ∷ []) (put (name_of cfg c) c.id ids)
          cs
        ∙ rw (get-put (name_of cfg c) n c.id ids)
            (first_of_assoc (last_id n cs) (str_eq (name_of cfg c) n) c.id (get n ids)))
    | inr k ↦ rw k (collected_ids n sources ids cs ∙ first_of-none (last_id n cs) (get n ids))
  ]

  -- The sources are those of the containers that are admitted, in their order, and a model's name
  -- leads to the last container that is admitted under it.
  pub collect_sources_lem :
      (n : Bytes) (cs : List Container)
      → ((collect_sources cfg ([], []) cs).0 ≡ admitted_sources cs)
        × (get n (collect_sources cfg ([], []) cs).1 ≡ last_id n cs)
  collect_sources_lem n cs = (
    collected_sources [] [] cs,
    collected_ids n [] [] cs ∙ unfold get in sym (first_of_nothing (last_id n cs)),
  )
