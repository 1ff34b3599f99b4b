-- ===== src/Base/Text.antt =====
-- Go strings as lists of bytes, with what the program uses of package strings. Case mapping and
-- white space are those of ASCII.
use Prim.Native.Nat.{ℕ, ◌+◌, ◌-◌}
use Prim.Native.Char.{code}
use Prim.Native.String.{String}
use mathlib.Core.Path.{◌≡◌}
use mathlib.Core.Logic.{◌↔◌}
use mathlib.Core.Bool.{Bool, true, false, not, ◌&&◌, ◌||◌}
use mathlib.Core.Option.{Option, none, some}
use mathlib.Core.List.{List, [], ◌∷◌, ◌++◌, map, reverse}
use native.Mathlib.Omega.{arith}
use gobackup_docker.Base.Flow.{leb, ◌==◌, if◌then◌else◌}

abbrev pub Bytes : Type 0
Bytes = List ℕ

-- the bytes of an ASCII literal
abbrev pub codes : String → Bytes
codes String.[] = []
codes (String.◌∷◌ c s) = code c ∷ codes s

-- a == b
unfoldable pub str_eq : Bytes → Bytes → Bool
str_eq [] [] = true
str_eq (x ∷ xs) (y ∷ ys) = x == y && str_eq xs ys
str_eq _ _ = false

pub str_eq_iff : (a b : Bytes) → (str_eq a b ≡ true) ↔ (a ≡ b)
unfolding str_eq
str_eq_iff (x ∷ a) (y ∷ b) = ground (arith, str_eq_iff a b)
str_eq_iff _ _ = ground arith

-- s == ""
abbrev pub is_empty {ℓ} : {A : Type ℓ} → List A → Bool
is_empty [] = true
is_empty (x ∷ xs) = false

-- strings.CutPrefix(s, p); `none` is a prefix that is not there
unfoldable pub cut_prefix : Bytes → Bytes → Option Bytes
cut_prefix s [] = some s
cut_prefix [] (y ∷ p) = none
cut_prefix (x ∷ s) (y ∷ p) = if x == y then cut_prefix s p else none

-- strings.HasPrefix(s, p)
unfoldable pub has_prefix : Bytes → Bytes → Bool
has_prefix s [] = true
has_prefix [] (y ∷ p) = false
has_prefix (x ∷ s) (y ∷ p) = x == y && has_prefix s p

-- strings.CutSuffix(s, p)
unfoldable pub cut_suffix : Bytes → Bytes → Option Bytes
unfolding cut_prefix
cut_suffix s p = elim (cut_prefix (reverse s) (reverse p)) [
  | none ↦ none
  | some r ↦ some (reverse r)
]

-- strings.HasSuffix(s, p)
unfoldable pub has_suffix : Bytes → Bytes → Bool
unfolding has_prefix
has_suffix s p = has_prefix (reverse s) (reverse p)

-- strings.Contains(s, p)
unfoldable pub contains_text : Bytes → Bytes → Bool
unfolding has_prefix
contains_text [] p = has_prefix [] p
contains_text (x ∷ s) p = has_prefix (x ∷ s) p || contains_text s p

-- puts a byte in front of the first piece
abbrev pub onto_first : ℕ → List Bytes → List Bytes
onto_first c [] = (c ∷ []) ∷ []
onto_first c (p ∷ ps) = (c ∷ p) ∷ ps

-- strings.Split(s, sep) for a separator of one byte
unfoldable pub split : Bytes → ℕ → List Bytes
split [] sep = [] ∷ []
split (c ∷ s) sep = let rest = split s sep in if c == sep then [] ∷ rest else onto_first c rest

-- strings.Cut(s, sep) for a separator of one byte; without one the second part is empty
unfoldable pub cut_at : Bytes → ℕ → Bytes × Bytes
cut_at [] sep = ([], [])
cut_at (c ∷ s) sep = let rest = cut_at s sep in if c == sep then ([], s) else (c ∷ rest.0, rest.1)

-- strings.Join(parts, sep)
unfoldable pub join : List Bytes → Bytes → Bytes
join [] sep = []
join (p ∷ []) sep = p
join (p ∷ q ∷ ps) sep = p ++ (sep ++ join (q ∷ ps) sep)

abbrev within : ℕ → ℕ → ℕ → Bool
within lo hi c = leb lo c && leb c hi

unfoldable pub is_lower : ℕ → Bool
is_lower c = within b'a' b'z' c

unfoldable pub is_upper : ℕ → Bool
is_upper c = within b'A' b'Z' c

unfoldable pub is_digit : ℕ → Bool
is_digit c = within b'0' b'9' c

-- strings.ToLower, strings.ToUpper
unfoldable pub to_lower : Bytes → Bytes
unfolding is_upper
to_lower = map (λ c. if is_upper c then c + 32 else c)

unfoldable pub upper_byte : ℕ → ℕ
unfolding is_lower
upper_byte c = if is_lower c then c - 32 else c

unfoldable pub to_upper : Bytes → Bytes
unfolding upper_byte
to_upper = map upper_byte

unfoldable pub is_space : ℕ → Bool
is_space c = within 9 13 c || c == b' '

unfoldable pub trim_left_by : (ℕ → Bool) → Bytes → Bytes
trim_left_by p [] = []
trim_left_by p (c ∷ s) = elim (p c) [ true ↦ trim_left_by p s | false ↦ c ∷ s ]

-- drops the longest suffix of bytes that pass the test
unfoldable pub trim_right_by : (ℕ → Bool) → Bytes → Bytes
trim_right_by p [] = []
trim_right_by p (c ∷ s) = let t = trim_right_by p s in if p c && is_empty t then [] else c ∷ t

-- strings.TrimSpace
unfoldable pub trim_space : Bytes → Bytes
unfolding trim_left_by trim_right_by is_space
trim_space s = trim_right_by is_space (trim_left_by is_space s)

-- a run of bytes that the test refuses, and what follows it
unfoldable pub span_not : (ℕ → Bool) → Bytes → Bytes × Bytes
span_not p [] = ([], [])
span_not p (c ∷ s) = let rest = span_not p s in if p c then ([], c ∷ s) else (c ∷ rest.0, rest.1)

-- Fields on what follows a space: a word begins at each byte that is no space and has a space, or
-- nothing, in front of it.
unfoldable pub words_after : Bool → Bytes → List Bytes
unfolding span_not is_space
words_after space [] = []
words_after space (c ∷ s) =
    let rest = words_after (is_space c) s in
    if space && not (is_space c) then (span_not is_space (c ∷ s)).0 ∷ rest else rest

-- strings.Fields
unfoldable pub fields : Bytes → List Bytes
unfolding words_after
fields s = words_after true s

-- strings.TrimRight(s, "/")
unfoldable pub trim_slashes : Bytes → Bytes
unfolding trim_right_by
trim_slashes s = trim_right_by (λ c. c == b'/') s

-- strings.ReplaceAll(s, b, new) for one byte
unfoldable pub replace_all : Bytes → ℕ → Bytes → Bytes
replace_all [] b new = []
replace_all (c ∷ s) b new = (if c == b then new else c ∷ []) ++ replace_all s b new
