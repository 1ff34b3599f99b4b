-- ===== src/Render/Escape/Copied.antt =====
-- How a reference passes the two loops: the escape copies it, and the expansion replaces it.
use gobackup_docker.Base.{
  ◌∙◌, length-append, append_assoc, ℕ, zero, suc, ◌+◌, ◌≤◌, true, false, some, [], ◌∷◌, ◌++◌, ◌==◌,
  Bytes, codes, length, Bool-cases, ◌≡◌, ◌≢◌, refl, sym, ap, inl, inr, arith, ltb, is_empty,
}
use gobackup_docker.Render.Escape.{
  is_letter, is_name_byte, ref_prefix_len, has_bare_dollar, escape_loop, escape_bare_dollars,
  dollar_sentinel_var, dollar_sentinel_ref,
}
use gobackup_docker.Render.Escape.Expand.{
  is_shell_special, take_name, to_brace, shell_name, replacement, expand_loop,
}
use gobackup_docker.Render.Escape.Reference.{
  ref_prefix_len-Braced, Braced, ref_prefix_len-Bare, Bare, AreNames, Stops, IsVarName, letter_name,
}

-- the rest of a reference is copied
pub escape_loop-append : (p q : Bytes) → escape_loop (length p) (p ++ q) ≡ p ++ escape_loop 0 q
unfolding escape_loop
escape_loop-append [] q = refl
escape_loop-append (c ∷ p) q = ap (◌∷◌ c) (escape_loop-append p q)

-- and passed over
pub expand_loop-append :
    (env : Bytes → Bytes) (p q : Bytes) → expand_loop env (length p) (p ++ q) ≡ expand_loop env 0 q
unfolding expand_loop
expand_loop-append env [] q = refl
expand_loop-append env (c ∷ p) q = expand_loop-append env p q

pub escape_loop_clean : (s : Bytes) (n : ℕ) → has_bare_dollar s ≡ false → escape_loop n s ≡ s
unfolding escape_loop has_bare_dollar
escape_loop_clean [] n h = refl
escape_loop_clean (c ∷ s) (suc n) h = ap (◌∷◌ c) (escape_loop_clean s n (ground arith))
escape_loop_clean (c ∷ s) zero h = elim (Bool-cases (c == b'$')) [
  | inr o ↦ rw o (ap (◌∷◌ c) (escape_loop_clean s 0 (ground arith)))
  | inl d ↦ elim (Bool-cases (ltb 0 (ref_prefix_len s))) [
    | inl r ↦ rw (d, r) (ap (◌∷◌ c) (escape_loop_clean s (ref_prefix_len s) (ground arith)))
    | inr z ↦ absurd (ground arith)
  ]
]

-- The early return of EscapeBareDollars changes nothing.
pub escape-loop : (s : Bytes) → escape_bare_dollars s ≡ escape_loop 0 s
unfolding escape_bare_dollars
escape-loop s = elim (Bool-cases (has_bare_dollar s)) [
  | inl y ↦ rw y
  | inr n ↦ rw n (sym (escape_loop_clean s 0 n))
]

-- an escaped text begins with a name byte only if the text does
pub escape_loop-Stops : (s : Bytes) → Stops s → Stops (escape_loop 0 s)
unfolding escape_loop
escape_loop-Stops [] h = tt
escape_loop-Stops (c ∷ s) h = elim (Bool-cases (c == b'$')) [
  | inr o ↦ rw o h
  | inl d ↦ elim (Bool-cases (ltb 0 (ref_prefix_len s))) [
    | inl r ↦ rw (d, r) h
    | inr z ↦ rw (d, z) (unfold is_name_byte is_letter in refl)
  ]
]

take_name-append : (p q : Bytes) → AreNames p → Stops q → take_name (p ++ q) ≡ p
unfolding take_name
take_name-append [] [] h k = refl
take_name-append [] (c ∷ q) h k = rw k
take_name-append (c ∷ p) q h k = rw h.0 (ap (◌∷◌ c) (take_name-append p q h.1 k))

name_not_brace : (c : ℕ) → is_name_byte c ≡ true → (c == b'}') ≡ false
unfolding is_name_byte is_letter
name_not_brace c h = ground arith

to_brace-append : (p q : Bytes) → AreNames p → to_brace (p ++ (b'}' ∷ q)) ≡ some p
unfolding to_brace
to_brace-append [] q h = refl
to_brace-append (c ∷ p) q h = rw (name_not_brace c h.0, to_brace-append p q h.1)

letter_not_special :
    (c : ℕ) → is_letter c ≡ true → ((c == b'{') ≡ false) × (is_shell_special c ≡ false)
unfolding is_letter is_shell_special
letter_not_special c h = ground arith

pub shell_name-bare : (n q : Bytes) → IsVarName n → Stops q → shell_name (n ++ q) ≡ (n, length n)
unfolding shell_name
shell_name-bare [] q v k = absurd v
shell_name-bare (c ∷ n) q v k =
    let (brace, special) = letter_not_special c v.0 in
    rw (brace, special, take_name-append (c ∷ n) q (letter_name c v.0, v.1) k)

pub shell_name-braced :
    (n q : Bytes) → IsVarName n → shell_name (b'{' ∷ (n ++ (b'}' ∷ q))) ≡ (n, length n + 2)
unfolding shell_name
shell_name-braced [] q v = absurd v
shell_name-braced (c ∷ []) q v = absurd (omega (arith, v.2))
shell_name-braced (c ∷ d ∷ n) q v =
    let (brace, special) = letter_not_special c v.0 in
    rw (special, to_brace-append (c ∷ d ∷ n) q (letter_name c v.0, v.1)) (ground arith)

replacement_var :
    (env : Bytes → Bytes) (n : Bytes) (w : ℕ) → IsVarName n → replacement env (n, w) ≡ env n
replacement_var env [] w v = absurd v
replacement_var env (c ∷ n) w v = refl

pub var_length : (n : Bytes) → IsVarName n → 2 ≤ length n
var_length [] v = absurd v
var_length (c ∷ n) v = omega (arith, v.2)

pub var_not_empty : (n q : Bytes) → IsVarName n → is_empty (n ++ q) ≡ false
var_not_empty [] q v = absurd v
var_not_empty (c ∷ n) q v = refl

-- a reference of `w` bytes is copied whole by one loop and replaced by the other
pub expand-copied :
    (env : Bytes → Bytes) (p n q : Bytes)
    → IsVarName n
    → is_empty (p ++ q) ≡ false
    → shell_name (p ++ q) ≡ (n, length p)
    → expand_loop env 0 (b'$' ∷ (p ++ q)) ≡ env n ++ expand_loop env 0 q
unfolding expand_loop
expand-copied env p n q v e h =
    rw (e, h, replacement_var env n (length p) v, expand_loop-append env p q)

pub escape-copied :
    (p q : Bytes)
    → ref_prefix_len (p ++ q) ≡ length p
    → 1 ≤ length p
    → escape_loop 0 (b'$' ∷ (p ++ q)) ≡ b'$' ∷ (p ++ escape_loop 0 q)
unfolding escape_loop
escape-copied p q h l =
    let pos : ltb 0 (length p) ≡ true = ground arith in rw (h, pos, escape_loop-append p q)

pub escape-plain : (c : ℕ) (s : Bytes) → c ≢ b'$' → escape_loop 0 (c ∷ s) ≡ c ∷ escape_loop 0 s
unfolding escape_loop
escape-plain c s h = let e : (c == b'$') ≡ false = ground arith in rw e

pub expand-plain :
    (env : Bytes → Bytes) (c : ℕ) (s : Bytes)
    → c ≢ b'$'
    → expand_loop env 0 (c ∷ s) ≡ c ∷ expand_loop env 0 s
unfolding expand_loop
expand-plain env c s h = let e : (c == b'$') ≡ false = ground arith in rw e

pub escape-dollar :
    (s : Bytes)
    → ref_prefix_len s ≡ 0
    → escape_loop 0 (b'$' ∷ s) ≡ dollar_sentinel_ref ++ escape_loop 0 s
unfolding escape_loop
escape-dollar s z = rw z

pub sentinel_is_var : IsVarName dollar_sentinel_var
unfolding is_name_byte is_letter
sentinel_is_var =
    (refl, (refl, (refl, (refl, (refl, (refl, (refl, (refl, (refl, tt)))))))), omega arith)

abbrev sentinel_braced : Bytes
sentinel_braced = codes "{GB_DOLLAR}"

pub expand-sentinel :
    (env : Bytes → Bytes) (q : Bytes)
    → expand_loop env 0 (dollar_sentinel_ref ++ q) ≡ env dollar_sentinel_var ++ expand_loop env 0 q
expand-sentinel env q =
    expand-copied env sentinel_braced dollar_sentinel_var q sentinel_is_var refl
      (shell_name-braced dollar_sentinel_var q sentinel_is_var)

pub escape-bare :
    (n q : Bytes)
    → IsVarName n
    → Stops q
    → escape_loop 0 (b'$' ∷ (n ++ q)) ≡ b'$' ∷ (n ++ escape_loop 0 q)
escape-bare n q v k =
    let r : Bare (n ++ q) = record { name = n; rest = q; splits = refl; is_var = v; stops = k } in
    let l : 2 ≤ length n = var_length n v in escape-copied n q (ref_prefix_len-Bare r) (omega arith)

pub escape-braced :
    (n q : Bytes)
    → IsVarName n
    → escape_loop 0 (b'$' ∷ b'{' ∷ (n ++ (b'}' ∷ q)))
      ≡ b'$' ∷ b'{' ∷ (n ++ (b'}' ∷ escape_loop 0 q))
escape-braced n q v =
    let p : Bytes = b'{' ∷ (n ++ (b'}' ∷ [])) in
    let whole : (u : Bytes) → p ++ u ≡ b'{' ∷ (n ++ (b'}' ∷ u)) =
      λ u. ap (◌∷◌ b'{') (append_assoc n (b'}' ∷ []) u) in
    let l : length p ≡ length n + 2 = omega (arith, length-append n (b'}' ∷ [])) in
    let r : Braced (b'{' ∷ (n ++ (b'}' ∷ q))) = record {
      name = n;
      rest = q;
      splits = refl;
      is_var = v;
    } in
    let w : ref_prefix_len (p ++ q) ≡ length p = rw whole (ref_prefix_len-Braced r ∙ sym l) in
    rw (← whole, ← whole) (escape-copied p q w (omega arith))
