-- ===== src/Pipeline/Manage/Env.antt =====
-- Which entries the merged environment has.
use gobackup_docker.Base.{
  Bool, true, not, ◌&&◌, ◌||◌, List, [], ◌∷◌, ◌++◌, Bytes, str_eq, str_eq_iff, ◌≡◌, refl, ◌∙◌,
  arith, Bool-cases, inl, inr,
}
use gobackup_docker.Labels.{one_of}
use gobackup_docker.Pipeline.Manage.{env_key, env_keys, without_keys, merge_env}

pub one_of-append :
    (e : Bytes) (xs ys : List Bytes) → one_of e (xs ++ ys) ≡ (one_of e xs || one_of e ys)
unfolding one_of
one_of-append e [] ys = refl
one_of-append e (x ∷ xs) ys = ground (arith, one_of-append e xs ys)

one_of-without_keys :
    (keys : List Bytes) (e : Bytes) (base : List Bytes)
    → one_of e (without_keys keys base) ≡ (one_of e base && not (one_of (env_key e) keys))
unfolding without_keys one_of
one_of-without_keys keys e [] = refl
one_of-without_keys keys e (x ∷ base) = elim (Bool-cases (str_eq e x)) [
  | inl y ↦
      rw ((str_eq_iff e x).0 y, (str_eq_iff x x).1 refl)
        (ground (arith, (str_eq_iff x x).1 refl, one_of-without_keys keys x base))
  | inr n ↦ ground (arith, one_of-without_keys keys e base)
]

and_true : (b : Bool) → b ≡ (b && true)
and_true b = ground arith

-- An entry is in the merged environment exactly when it is one of the credentials, or a base entry
-- whose variable no credential sets.
pub one_of-merge_env :
    (base creds : List Bytes) (e : Bytes)
    → one_of e (merge_env base creds)
      ≡ (one_of e creds || one_of e base && not (one_of (env_key e) (env_keys creds)))
unfolding merge_env
one_of-merge_env base [] e = unfold one_of env_keys in and_true (one_of e base)
one_of-merge_env base (c ∷ creds) e =
    let keys = env_keys (c ∷ creds) in
    one_of-append e (without_keys keys base) (c ∷ creds)
    ∙ rw (one_of-without_keys keys e base) (ground arith)
