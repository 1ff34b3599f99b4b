-- ===== src/Base/Prefix.antt =====
-- The laws of prefixes and of splitting at a byte.
use gobackup_docker.Base.{
  ap, ==_iff, is_empty, ◌&&◌, trim_slashes, ◌⊎◌, trim_right_by, trim_slashes, trim_right_by,
}
use mathlib.Core.Bool.{true}
use mathlib.Core.List.{List, [], ◌∷◌, ◌++◌}
use mathlib.Core.Option.{some}
use mathlib.Core.Path.{◌≡◌, refl}
use mathlib.Core.Logic.{◌⊎◌, inl, inr}
use Prim.Native.Nat.{ℕ}
use native.Mathlib.Omega.{arith}
use gobackup_docker.Base.Flow.{◌==◌, Bool-cases}
use gobackup_docker.Base.Text.{Bytes, cut_prefix, has_prefix, split}

pub cut_prefix-append : (p r : Bytes) → cut_prefix (p ++ r) p ≡ some r
unfolding cut_prefix
cut_prefix-append [] [] = refl
cut_prefix-append [] (x ∷ r) = refl
cut_prefix-append (y ∷ p) r = ground (arith, cut_prefix-append p r)

pub append_of_cut_prefix : (s p r : Bytes) → cut_prefix s p ≡ some r → s ≡ p ++ r
unfolding cut_prefix
append_of_cut_prefix [] [] r h = cc
append_of_cut_prefix (x ∷ s) [] r h = cc
append_of_cut_prefix [] (y ∷ p) r h = cc
append_of_cut_prefix (x ∷ s) (y ∷ p) r h = ground (arith, append_of_cut_prefix s p r)

pub has_prefix-append : (p r : Bytes) → has_prefix (p ++ r) p ≡ true
unfolding has_prefix
has_prefix-append [] [] = refl
has_prefix-append [] (x ∷ r) = refl
has_prefix-append (y ∷ p) r = ground (arith, has_prefix-append p r)

pub append_of_has_prefix : (s p : Bytes) → has_prefix s p ≡ true → (r : Bytes) × (s ≡ p ++ r)
unfolding has_prefix
append_of_has_prefix [] [] h = ([], refl)
append_of_has_prefix (x ∷ s) [] h = (x ∷ s, refl)
append_of_has_prefix [] (y ∷ p) h = cc
append_of_has_prefix (x ∷ s) (y ∷ p) h =
    let (r, e) = append_of_has_prefix s p (ground arith) in (r, ground arith)

-- a piece is always there
pub split-cons : (s : Bytes) (sep : ℕ) → (p : Bytes) × (ps : List Bytes) × (split s sep ≡ p ∷ ps)
unfolding split
split-cons [] sep = ([], [], refl)
split-cons (c ∷ s) sep = elim (Bool-cases (c == sep)) [
  | inl y ↦ ([], split s sep, rw y)
  | inr n ↦ let (p, ps, e) = split-cons s sep in (c ∷ p, ps, rw (n, e))
]

pub append_cancel : (p a b : Bytes) → p ++ a ≡ p ++ b → a ≡ b
append_cancel [] a b h = h
append_cancel (x ∷ p) a b h = append_cancel p a b cc

-- nothing, or a text that begins with a slash
abbrev pub IsTail : Bytes → Type 0
IsTail t = (t ≡ []) ⊎ ((u : Bytes) × (t ≡ b'/' ∷ u))

-- what trimming takes away
trimmed-IsTail : (s : Bytes) → (t : Bytes) × (s ≡ trim_right_by (λ c. c == b'/') s ++ t) × IsTail t
unfolding trim_right_by
trimmed-IsTail [] = ([], refl, inl refl)
trimmed-IsTail (c ∷ s) =
    let rest = trim_right_by (λ c. c == b'/') s in
    let (t, e, h) = trimmed-IsTail s in
    elim (Bool-cases (c == b'/' && is_empty rest)) [
      | inl y ↦ rw y (c ∷ s, refl, inr (s, ground (arith, ==_iff c b'/')))
      | inr n ↦ rw n (t, ap (λ z. c ∷ z) e, h)
    ]

pub trim_slashes-IsTail : (s : Bytes) → (t : Bytes) × (s ≡ trim_slashes s ++ t) × IsTail t
unfolding trim_slashes
trim_slashes-IsTail s = trimmed-IsTail s
