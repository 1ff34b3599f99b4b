-- ===== src/Render/Escape/Reference.antt =====
-- The variable references that a text may begin with after a '$', described without the scanner.
use gobackup_docker.Base.{
  ℕ, suc, ◌+◌, ◌≤◌, true, false, [], ◌∷◌, ◌++◌, ◌==◌, Bytes, drop, length, All, Bool-cases, ==_iff,
  ◌≡◌, refl, ap, ◌∙◌, ◌⊎◌, inl, inr, arith, leb,
}
use gobackup_docker.Render.Escape.{
  is_letter, is_name_byte, name_run, braced_len, next_is, ref_prefix_len,
}
use gobackup_docker.Render.Escape.Expand.{take_name}

abbrev pub AreNames : Bytes → Type 0
AreNames = All (λ c. is_name_byte c ≡ true)

-- a text that no name byte begins
abbrev pub Stops : Bytes → Type 0
Stops [] = Unit
Stops (c ∷ s) = is_name_byte c ≡ false

-- a letter, then at least one more name byte
abbrev pub IsVarName : Bytes → Type 0
IsVarName [] = ⊥
IsVarName (c ∷ n) = (is_letter c ≡ true) × AreNames n × (1 ≤ length n)

-- `s` begins with the reference NAME
pub record Bare (s : Bytes) : Type 0 where
  pub name : Bytes
  pub rest : Bytes
  pub splits : s ≡ name ++ rest
  pub is_var : IsVarName name
  pub stops : Stops rest

-- `s` begins with the reference {NAME}
pub record Braced (s : Bytes) : Type 0 where
  pub name : Bytes
  pub rest : Bytes
  pub splits : s ≡ b'{' ∷ (name ++ (b'}' ∷ rest))
  pub is_var : IsVarName name

pub letter_name : (c : ℕ) → is_letter c ≡ true → is_name_byte c ≡ true
unfolding is_name_byte
letter_name c h = ground arith

take_name-AreNames : (s : Bytes) → AreNames (take_name s)
unfolding take_name
take_name-AreNames [] = tt
take_name-AreNames (c ∷ s) = elim (Bool-cases (is_name_byte c)) [
  | inl y ↦ rw y (y, take_name-AreNames s)
  | inr n ↦ rw n tt
]

name_run-length : (s : Bytes) → name_run s ≡ length (take_name s)
unfolding take_name name_run
name_run-length [] = refl
name_run-length (c ∷ s) = ground (arith, name_run-length s)

name_run-splits : (s : Bytes) → s ≡ take_name s ++ drop (name_run s) s
unfolding take_name name_run
name_run-splits [] = refl
name_run-splits (c ∷ s) = elim (Bool-cases (is_name_byte c)) [
  | inl y ↦ rw y (ap (◌∷◌ c) (name_run-splits s))
  | inr n ↦ rw n
]

name_run-Stops : (s : Bytes) → Stops (drop (name_run s) s)
unfolding name_run
name_run-Stops [] = tt
name_run-Stops (c ∷ s) = elim (Bool-cases (is_name_byte c)) [
  | inl y ↦ rw y (name_run-Stops s)
  | inr n ↦ rw n n
]

-- a maximal run of name bytes is what the scanner measures
pub name_run-append : (p q : Bytes) → AreNames p → Stops q → name_run (p ++ q) ≡ length p
unfolding name_run
name_run-append [] [] h k = refl
name_run-append [] (c ∷ q) h k = rw k
name_run-append (c ∷ p) q h k = rw h.0 (ap suc (name_run-append p q h.1 k))

pub drop-append : (p q : Bytes) → drop (length p) (p ++ q) ≡ q
drop-append [] q = refl
drop-append (c ∷ p) q = drop-append p q

letter_not_brace : (c : ℕ) → is_letter c ≡ true → (c == b'{') ≡ false
unfolding is_letter
letter_not_brace c h = ground arith

-- A reference NAME at the start has its own length.
pub ref_prefix_len-Bare : {s : Bytes} (r : Bare s) → ref_prefix_len s ≡ length r.name
ref_prefix_len-Bare r = rw r.splits (named r.name r.rest r.is_var r.stops)
  where
    named : (n q : Bytes) → IsVarName n → Stops q → ref_prefix_len (n ++ q) ≡ length n
    named [] q v k = absurd v
    named (c ∷ n) q v k =
        unfold ref_prefix_len in
        rw (letter_not_brace c v.0, v.0, name_run-append n q v.1 k) (ground arith)

-- A reference {NAME} at the start has the length of its name and two braces.
pub ref_prefix_len-Braced : {s : Bytes} (r : Braced s) → ref_prefix_len s ≡ length r.name + 2
ref_prefix_len-Braced r = rw r.splits (named r.name r.rest r.is_var)
  where
    named : (n q : Bytes) → IsVarName n → ref_prefix_len (b'{' ∷ (n ++ (b'}' ∷ q))) ≡ length n + 2
    named [] q v = absurd v
    named (c ∷ n) q v =
        unfold ref_prefix_len braced_len in
        rw
          (
            v.0,
            name_run-append n (b'}' ∷ q) v.1 (unfold is_name_byte is_letter in refl),
            drop-append n (b'}' ∷ q),
          )
          (ground arith)

take_name-two :
    (c : ℕ) (s : Bytes) → is_letter c ≡ true → 1 ≤ name_run s → IsVarName (c ∷ take_name s)
take_name-two c s l h = (l, take_name-AreNames s, rw (← name_run-length s) h)

reference-Bare : (c : ℕ) (s : Bytes) → is_letter c ≡ true → 1 ≤ name_run s → Bare (c ∷ s)
reference-Bare c s l h = record {
  name = c ∷ take_name s;
  rest = drop (name_run s) s;
  splits = ap (◌∷◌ c) (name_run-splits s);
  is_var = take_name-two c s l h;
  stops = name_run-Stops s;
}

next_is-cons : (b : ℕ) (s : Bytes) → next_is b s ≡ true → (t : Bytes) × (s ≡ b ∷ t)
next_is-cons b [] h = cc
next_is-cons b (c ∷ s) h = (s, ground arith)

reference-Braced :
    (c : ℕ) (s : Bytes)
    → is_letter c ≡ true
    → 1 ≤ name_run s
    → next_is b'}' (drop (name_run s) s) ≡ true
    → Braced (b'{' ∷ c ∷ s)
reference-Braced c s l h e =
    let (t, p) = next_is-cons b'}' (drop (name_run s) s) e in
    record {
      name = c ∷ take_name s;
      rest = t;
      splits =
          ap (λ (u : Bytes). b'{' ∷ c ∷ u)
            (name_run-splits s ∙ ap (λ (u : Bytes). take_name s ++ u) p);
      is_var = take_name-two c s l h;
    }

reference_in_braces : (s : Bytes) → (ref_prefix_len (b'{' ∷ s) ≡ 0) ⊎ Braced (b'{' ∷ s)
unfolding ref_prefix_len braced_len
reference_in_braces [] = inl refl
reference_in_braces (c ∷ s) = elim (Bool-cases (is_letter c)) [
  | inr n ↦ inl (rw n)
  | inl l ↦ elim (Bool-cases (leb 1 (name_run s))) [
    | inr few ↦ inl (ground arith)
    | inl many ↦ elim (Bool-cases (next_is b'}' (drop (name_run s) s))) [
      | inr open_ ↦ inl (rw (l, open_) (ground arith))
      | inl closed ↦ inr (reference-Braced c s l (ground arith) closed)
    ]
  ]
]

-- What the scanner measures is a reference.
pub reference_cases : (s : Bytes) → (ref_prefix_len s ≡ 0) ⊎ Bare s ⊎ Braced s
unfolding ref_prefix_len
reference_cases [] = inl refl
reference_cases (c ∷ s) = elim (Bool-cases (c == b'{')) [
  | inl b ↦
      rw ((==_iff c b'{').0 b)
        (elim (reference_in_braces s) [ inl z ↦ inl z | inr r ↦ inr (inr r) ])
  | inr n ↦ elim (Bool-cases (is_letter c)) [
    | inr o ↦ inl (rw (n, o))
    | inl l ↦ elim (Bool-cases (leb 1 (name_run s))) [
      | inr few ↦ inl (ground arith)
      | inl many ↦ inr (inl (reference-Bare c s l (ground arith)))
    ]
  ]
]
