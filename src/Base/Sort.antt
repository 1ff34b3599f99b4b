-- ===== src/Base/Sort.antt =====
-- sort.Strings.
use gobackup_docker.Base.{is_empty, is_empty}
use mathlib.Core.List.{Perm}
use mathlib.Core.List.Perm
use mathlib.Core.Bool.{Bool, true, false, ◌&&◌, ◌||◌}
use mathlib.Core.List.{List, [], ◌∷◌}
use mathlib.Core.Path.{◌≡◌, refl}
use native.Mathlib.Omega.{arith}
use gobackup_docker.Base.Flow.{ltb, ◌==◌, if◌then◌else◌, Bool-cases}
use gobackup_docker.Base.Lists.{All}
use gobackup_docker.Base.Text.{Bytes}
use mathlib.Core.Logic.{inl, inr}

-- a <= b, byte by byte
unfoldable pub text_le : Bytes → Bytes → Bool
text_le [] b = true
text_le (x ∷ a) [] = false
text_le (x ∷ a) (y ∷ b) = ltb x y || x == y && text_le a b

unfoldable pub insert_text : Bytes → List Bytes → List Bytes
insert_text x [] = x ∷ []
insert_text x (y ∷ ys) = if text_le x y then x ∷ y ∷ ys else y ∷ insert_text x ys

unfoldable pub sort_texts : List Bytes → List Bytes
unfolding insert_text text_le
sort_texts [] = []
sort_texts (x ∷ xs) = insert_text x (sort_texts xs)

insert_text-perm : (x : Bytes) (ys : List Bytes) → Perm (insert_text x ys) (x ∷ ys)
unfolding insert_text
insert_text-perm x [] = Perm.refl (x ∷ [])
insert_text-perm x (y ∷ ys) = elim (Bool-cases (text_le x y)) [
  | inl h ↦ rw h (Perm.refl (x ∷ y ∷ ys))
  | inr h ↦ rw h (Perm.trans (Perm.cons y (insert_text-perm x ys)) (Perm.swap x y ys))
]

-- Sorting keeps every text as often as it was.
pub sort_texts-perm : (xs : List Bytes) → Perm (sort_texts xs) xs
unfolding sort_texts
sort_texts-perm [] = Perm.refl []
sort_texts-perm (x ∷ xs) =
    Perm.trans (insert_text-perm x (sort_texts xs)) (Perm.cons x (sort_texts-perm xs))

text_le_total : (a b : Bytes) → text_le a b ≡ false → text_le b a ≡ true
unfolding text_le
text_le_total [] b h = ground arith
text_le_total (x ∷ a) [] h = refl
text_le_total (x ∷ a) (y ∷ b) h = ground (arith, text_le_total a b)

text_le_trans : (a b c : Bytes) → text_le a b ≡ true → text_le b c ≡ true → text_le a c ≡ true
unfolding text_le
text_le_trans [] b c h k = refl
text_le_trans (x ∷ a) [] c h k = cc
text_le_trans (x ∷ a) (y ∷ b) [] h k = cc
text_le_trans (x ∷ a) (y ∷ b) (z ∷ c) h k = ground (arith, text_le_trans a b c)

-- each text is at most every later one
abbrev pub Ascending : List Bytes → Type 0
Ascending [] = Unit
Ascending (x ∷ xs) = All (λ y. text_le x y ≡ true) xs × Ascending xs

All-le_trans :
    (x y : Bytes) (ys : List Bytes)
    → text_le x y ≡ true
    → All (λ z. text_le y z ≡ true) ys
    → All (λ z. text_le x z ≡ true) ys
All-le_trans x y [] h k = tt
All-le_trans x y (z ∷ ys) h k = (text_le_trans x y z h k.0, All-le_trans x y ys h k.1)

All-insert_text :
    (P : Bytes → Type 0) (x : Bytes) (ys : List Bytes) → P x → All P ys → All P (insert_text x ys)
unfolding insert_text
All-insert_text P x [] h k = (h, tt)
All-insert_text P x (y ∷ ys) h k = elim (Bool-cases (text_le x y)) [
  | inl e ↦ rw e (h, k)
  | inr e ↦ rw e (k.0, All-insert_text P x ys h k.1)
]

insert_text-Ascending : (x : Bytes) (ys : List Bytes) → Ascending ys → Ascending (insert_text x ys)
unfolding insert_text
insert_text-Ascending x [] h = (tt, tt)
insert_text-Ascending x (y ∷ ys) h = elim (Bool-cases (text_le x y)) [
  | inl e ↦ rw e ((e, All-le_trans x y ys e h.0), h)
  | inr e ↦ rw e (
    All-insert_text (λ z. text_le y z ≡ true) x ys (text_le_total x y e) h.0,
    insert_text-Ascending x ys h.1,
  )
]

pub sort_texts-Ascending : (xs : List Bytes) → Ascending (sort_texts xs)
unfolding sort_texts
sort_texts-Ascending [] = tt
sort_texts-Ascending (x ∷ xs) = insert_text-Ascending x (sort_texts xs) (sort_texts-Ascending xs)

is_empty-insert_text : (x : Bytes) (ys : List Bytes) → is_empty (insert_text x ys) ≡ false
unfolding insert_text
is_empty-insert_text x [] = refl
is_empty-insert_text x (y ∷ ys) = elim (Bool-cases (text_le x y)) [ inl h ↦ rw h | inr h ↦ rw h ]

pub is_empty-sort_texts : (xs : List Bytes) → is_empty (sort_texts xs) ≡ is_empty xs
unfolding sort_texts
is_empty-sort_texts [] = refl
is_empty-sort_texts (x ∷ xs) = is_empty-insert_text x (sort_texts xs)
