-- ===== src/Render/Escape/Clean.antt =====
-- An escaped text has nothing left to escape.
use gobackup_docker.Base.{
  inr, inl, ℕ, suc, ◌+◌, true, false, not, [], ◌∷◌, ◌++◌, ◌==◌, Bytes, length, str_eq, str_eq_iff,
  Bool-cases, ◌≡◌, refl, ap, ◌∙◌, arith,
}
use gobackup_docker.Render.Escape.{
  is_letter, is_name_byte, ref_prefix_len, has_bare_dollar, escape_loop, escape_bare_dollars,
  dollar_sentinel_var,
}
use gobackup_docker.Render.Escape.Copied.{
  escape-plain, escape-dollar, escape-loop, escape_loop_clean, escape_loop-Stops, sentinel_is_var,
  escape-bare, escape-braced,
}
use gobackup_docker.Render.Escape.Literal.{
  Means, done, plain, dollar, bare, braced, meaning, no_reference,
}
use gobackup_docker.Render.Escape.Reference.{
  AreNames, Stops, IsVarName, Bare, Braced, letter_name, ref_prefix_len-Bare, ref_prefix_len-Braced,
}

name_not_dollar : (c : ℕ) → is_name_byte c ≡ true → (c == b'$') ≡ false
unfolding is_name_byte is_letter
name_not_dollar c h = ground arith

has_bare_dollar-plain :
    (c : ℕ) (q : Bytes) → (c == b'$') ≡ false → has_bare_dollar (c ∷ q) ≡ has_bare_dollar q
unfolding has_bare_dollar
has_bare_dollar-plain c q h = rw h

has_bare_dollar-names : (p q : Bytes) → AreNames p → has_bare_dollar (p ++ q) ≡ has_bare_dollar q
has_bare_dollar-names [] q h = refl
has_bare_dollar-names (c ∷ p) q h =
    has_bare_dollar-plain c (p ++ q) (name_not_dollar c h.0) ∙ has_bare_dollar-names p q h.1

var_names : (n : Bytes) → IsVarName n → AreNames n
var_names [] v = absurd v
var_names (c ∷ n) v = (letter_name c v.0, v.1)

has_bare_dollar-dollar :
    (q : Bytes) (n : ℕ) → ref_prefix_len q ≡ suc n → has_bare_dollar (b'$' ∷ q) ≡ has_bare_dollar q
unfolding has_bare_dollar
has_bare_dollar-dollar q n h = ground arith

has_bare_dollar-bare :
    (n q : Bytes) → IsVarName n → Stops q → has_bare_dollar (b'$' ∷ (n ++ q)) ≡ has_bare_dollar q
has_bare_dollar-bare [] q v k = absurd v
has_bare_dollar-bare (c ∷ n) q v k =
    let r : Bare (c ∷ (n ++ q)) = record {
      name = c ∷ n;
      rest = q;
      splits = refl;
      is_var = v;
      stops = k;
    } in
    has_bare_dollar-dollar (c ∷ (n ++ q)) (length n) (ref_prefix_len-Bare r)
    ∙ has_bare_dollar-names (c ∷ n) q (var_names (c ∷ n) v)

has_bare_dollar-braced :
    (n q : Bytes)
    → IsVarName n
    → has_bare_dollar (b'$' ∷ b'{' ∷ (n ++ (b'}' ∷ q))) ≡ has_bare_dollar q
has_bare_dollar-braced n q v =
    let r : Braced (b'{' ∷ (n ++ (b'}' ∷ q))) = record {
      name = n;
      rest = q;
      splits = refl;
      is_var = v;
    } in
    has_bare_dollar-dollar (b'{' ∷ (n ++ (b'}' ∷ q))) (length n + 1)
      (ref_prefix_len-Braced r ∙ omega arith)
    ∙ has_bare_dollar-plain b'{' (n ++ (b'}' ∷ q)) refl
    ∙ has_bare_dollar-names n (b'}' ∷ q) (var_names n v)
    ∙ has_bare_dollar-plain b'}' q refl

has_bare_dollar-Means :
    {env : Bytes → Bytes} {s t : Bytes} → Means env s t → has_bare_dollar (escape_loop 0 s) ≡ false
has_bare_dollar-Means done = unfold escape_loop has_bare_dollar in refl
has_bare_dollar-Means (plain {s} c ne d) =
    rw (escape-plain c s ne)
      (has_bare_dollar-plain c (escape_loop 0 s) (ground arith) ∙ has_bare_dollar-Means d)
has_bare_dollar-Means (dollar {s} a b d) = rw (escape-dollar s (no_reference (λ n. n) s a b)) (
    has_bare_dollar-braced dollar_sentinel_var (escape_loop 0 s) sentinel_is_var
    ∙ has_bare_dollar-Means d)
has_bare_dollar-Means (bare {s} r d) =
    ap (λ (u : Bytes). has_bare_dollar (escape_loop 0 (b'$' ∷ u))) r.splits
    ∙ ap has_bare_dollar (escape-bare r.name r.rest r.is_var r.stops)
    ∙ has_bare_dollar-bare r.name (escape_loop 0 r.rest) r.is_var (escape_loop-Stops r.rest r.stops)
    ∙ has_bare_dollar-Means d
has_bare_dollar-Means (braced {s} r d) =
    ap (λ (u : Bytes). has_bare_dollar (escape_loop 0 (b'$' ∷ u))) r.splits
    ∙ ap has_bare_dollar (escape-braced r.name r.rest r.is_var)
    ∙ has_bare_dollar-braced r.name (escape_loop 0 r.rest) r.is_var
    ∙ has_bare_dollar-Means d

-- No '$' that would be escaped is left in an escaped text.
pub has_bare_dollar-escape : (s : Bytes) → has_bare_dollar (escape_bare_dollars s) ≡ false
has_bare_dollar-escape s = rw (escape-loop s) (has_bare_dollar-Means (meaning (λ n. n) 0 s).1)

-- A text is changed exactly when it holds a '$' that begins no reference.
pub escape_changes_iff : (s : Bytes) → str_eq (escape_bare_dollars s) s ≡ not (has_bare_dollar s)
escape_changes_iff s = elim (Bool-cases (has_bare_dollar s)) [
  | inl y ↦ rw y (ground (arith, str_eq_iff (escape_bare_dollars s) s, has_bare_dollar-escape s))
  | inr n ↦ rw n ((str_eq_iff _ _).1 (escape-loop s ∙ escape_loop_clean s 0 n))
]

-- Escaping twice is escaping once.
pub escape_idem : (s : Bytes) → escape_bare_dollars (escape_bare_dollars s) ≡ escape_bare_dollars s
escape_idem s =
    escape-loop (escape_bare_dollars s)
    ∙ escape_loop_clean (escape_bare_dollars s) 0 (has_bare_dollar-escape s)
