-- ===== src/Render/Escape/Literal.antt =====
-- What gobackup's expansion makes of an escaped text.
use gobackup_docker.Base.{
  ℕ, zero, suc, ◌+◌, ◌≤◌, [], ◌∷◌, ◌++◌, ◌==◌, Bytes, drop, length, Bool-cases, ==_iff, ◌≡◌, ◌≢◌,
  refl, sym, ap, ◌∙◌, ◌⊎◌, inl, inr, arith, length-append, append_assoc,
}
use gobackup_docker.Render.Escape.{
  ref_prefix_len, escape_loop, escape_bare_dollars, dollar_sentinel_var, dollar_sentinel_value,
}
use gobackup_docker.Render.Escape.Expand.{expand_loop, expand}
use gobackup_docker.Render.Escape.Copied.{
  escape-plain, expand-plain, escape-dollar, expand-sentinel, expand-copied, escape-copied,
  shell_name-bare, shell_name-braced, var_length, var_not_empty, escape-loop, escape_loop-Stops,
}
use gobackup_docker.Render.Escape.Reference.{
  Stops, IsVarName, Bare, Braced, drop-append, ref_prefix_len-Bare, ref_prefix_len-Braced,
  reference_cases,
}

-- `t` is the text that `s` stands for: a reference $NAME or ${NAME} stands for the value of its
-- name, and each other byte, a '$' included, for itself.
pub data Means (env : Bytes → Bytes) : Bytes → Bytes → Type 0 where
  done : Means env [] []
  plain : {s t : Bytes} (c : ℕ) → c ≢ b'$' → Means env s t → Means env (c ∷ s) (c ∷ t)
  dollar : {s t : Bytes} → ¬ Bare s → ¬ Braced s → Means env s t → Means env (b'$' ∷ s) (b'$' ∷ t)
  bare : {s t : Bytes} (r : Bare s) → Means env r.rest t → Means env (b'$' ∷ s) (env r.name ++ t)
  braced :
      {s t : Bytes} (r : Braced s) → Means env r.rest t → Means env (b'$' ∷ s) (env r.name ++ t)

Bare-pos : (s : Bytes) → ref_prefix_len s ≡ 0 → ¬ Bare s
Bare-pos s z r = omega (arith, ref_prefix_len-Bare r, var_length r.name r.is_var)

Braced-pos : (s : Bytes) → ref_prefix_len s ≡ 0 → ¬ Braced s
Braced-pos s z r = omega (arith, ref_prefix_len-Braced r)

drop-bare : (s n q : Bytes) → s ≡ n ++ q → drop (length n) s ≡ q
drop-bare s n q e = rw e (drop-append n q)

drop-braced : (s n q : Bytes) → s ≡ b'{' ∷ (n ++ (b'}' ∷ q)) → drop (length n + 2) s ≡ q
drop-braced s n q e =
    let l : length n + 2 ≡ suc (length n + 1) = omega arith in rw (e, l) (drop_further n q)
  where
    drop_further : (n q : Bytes) → drop (length n + 1) (n ++ (b'}' ∷ q)) ≡ q
    drop_further [] q = refl
    drop_further (c ∷ n) q =
        let l : suc (length n) + 1 ≡ suc (length n + 1) = omega arith in rw l (drop_further n q)

module _ (env : Bytes → Bytes) where
  bare_step :
      (s n q : Bytes)
      → s ≡ n ++ q
      → IsVarName n
      → Stops q
      → ref_prefix_len s ≡ length n
      → expand_loop env 0 (escape_loop 0 (b'$' ∷ s)) ≡ env n ++ expand_loop env 0 (escape_loop 0 q)
  bare_step s n q e v k w =
      let l : 2 ≤ length n = var_length n v in
      rw (e, escape-copied n q (rw e at w) (omega arith))
        (expand-copied env n n (escape_loop 0 q) v (var_not_empty n _ v)
          (shell_name-bare n _ v (escape_loop-Stops q k)))

  braced_step :
      (s n q : Bytes)
      → s ≡ b'{' ∷ (n ++ (b'}' ∷ q))
      → IsVarName n
      → ref_prefix_len s ≡ length n + 2
      → expand_loop env 0 (escape_loop 0 (b'$' ∷ s)) ≡ env n ++ expand_loop env 0 (escape_loop 0 q)
  braced_step s n q e v w =
      let p : Bytes = b'{' ∷ (n ++ (b'}' ∷ [])) in
      let whole : (u : Bytes) → p ++ u ≡ b'{' ∷ (n ++ (b'}' ∷ u)) =
        λ u. ap (◌∷◌ b'{') (append_assoc n (b'}' ∷ []) u) in
      let l : length p ≡ length n + 2 = omega (arith, length-append n (b'}' ∷ [])) in
      let w' : ref_prefix_len (p ++ q) ≡ length p = rw whole (rw e at w ∙ sym l) in
      rw (e, ← whole, escape-copied p q w' (omega arith))
        (expand-copied env p n (escape_loop 0 q) v refl (rw (whole, l) (shell_name-braced n _ v)))

  plain_step :
      (c : ℕ) (s : Bytes)
      → c ≢ b'$'
      → expand_loop env 0 (escape_loop 0 (c ∷ s)) ≡ c ∷ expand_loop env 0 (escape_loop 0 s)
  plain_step c s h = rw (escape-plain c s h) (expand-plain env c (escape_loop 0 s) h)

  dollar_step :
      (s : Bytes)
      → env dollar_sentinel_var ≡ dollar_sentinel_value
      → ref_prefix_len s ≡ 0
      → expand_loop env 0 (escape_loop 0 (b'$' ∷ s)) ≡ b'$' ∷ expand_loop env 0 (escape_loop 0 s)
  dollar_step s h z = rw (escape-dollar s z) (
      expand-sentinel env (escape_loop 0 s)
      ∙ ap (λ (u : Bytes). u ++ expand_loop env 0 (escape_loop 0 s)) h)

  pub no_reference : (s : Bytes) → ¬ Bare s → ¬ Braced s → ref_prefix_len s ≡ 0
  no_reference s a b = elim (reference_cases s) [
    | inl z ↦ z
    | inr (inl r) ↦ absurd (a r)
    | inr (inr r) ↦ absurd (b r)
  ]

  expand-Means :
      {s t : Bytes}
      → env dollar_sentinel_var ≡ dollar_sentinel_value
      → Means env s t
      → expand_loop env 0 (escape_loop 0 s) ≡ t
  expand-Means h done = unfold escape_loop expand_loop in refl
  expand-Means h (plain {s} {t} c ne d) = plain_step c s ne ∙ ap (◌∷◌ c) (expand-Means h d)
  expand-Means h (dollar {s} {t} a b d) =
      dollar_step s h (no_reference s a b) ∙ ap (◌∷◌ b'$') (expand-Means h d)
  expand-Means h (bare {s} {t} r d) =
      bare_step s r.name r.rest r.splits r.is_var r.stops (ref_prefix_len-Bare r)
      ∙ ap (λ (u : Bytes). env r.name ++ u) (expand-Means h d)
  expand-Means h (braced {s} {t} r d) =
      braced_step s r.name r.rest r.splits r.is_var (ref_prefix_len-Braced r)
      ∙ ap (λ (u : Bytes). env r.name ++ u) (expand-Means h d)

  -- a meaning of what is left behind a reference
  pub meaning : (n : ℕ) (s : Bytes) → (t : Bytes) × Means env (drop n s) t
  meaning zero [] = ([], done)
  meaning (suc n) [] = ([], done)
  meaning (suc n) (c ∷ s) = meaning n s
  meaning zero (c ∷ s) = elim (Bool-cases (c == b'$')) [
    | inr o ↦ let (t, d) = meaning 0 s in (c ∷ t, plain c (λ e. ground arith) d)
    | inl y ↦
        rw ((==_iff c b'$').0 y)
          (after_dollar s (meaning 0 s) (λ n. meaning n s) (reference_cases s))
  ]
    where
      after_dollar :
          (s : Bytes)
          → ((t : Bytes) × Means env s t)
          → ((n : ℕ) → (t : Bytes) × Means env (drop n s) t)
          → (ref_prefix_len s ≡ 0) ⊎ Bare s ⊎ Braced s
          → (t : Bytes) × Means env (b'$' ∷ s) t
      after_dollar s (t, d) rest (inl z) = (b'$' ∷ t, dollar (Bare-pos s z) (Braced-pos s z) d)
      after_dollar s here rest (inr (inl r)) =
          let (t, d) = rest (length r.name) in
          (env r.name ++ t, bare r (rw (drop-bare s r.name r.rest r.splits) at d))
      after_dollar s here rest (inr (inr r)) =
          let (t, d) = rest (length r.name + 2) in
          (env r.name ++ t, braced r (rw (drop-braced s r.name r.rest r.splits) at d))

  -- Expanding the escaped text, with the sentinel variable set to "$", gives the text that was
  -- meant: every reference replaced by its value and every other '$' kept.
  pub expand-escape :
      (s : Bytes)
      → env dollar_sentinel_var ≡ dollar_sentinel_value
      → Means env s (expand env (escape_bare_dollars s))
  unfolding expand
  expand-escape s h = let (t, d) = meaning 0 s in rw (escape-loop s, expand-Means h d) d

  pub expand-escape-Means :
      (s t : Bytes)
      → env dollar_sentinel_var ≡ dollar_sentinel_value
      → Means env s t
      → expand env (escape_bare_dollars s) ≡ t
  unfolding expand
  expand-escape-Means s t h d = rw (escape-loop s) (expand-Means h d)
