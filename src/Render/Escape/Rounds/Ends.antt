-- ===== src/Render/Escape/Rounds/Ends.antt =====
-- The rounds come to an end.
use gobackup_docker.Base.{
  ℕ, zero, suc, ◌+◌, ◌<◌, true, false, Option, some, [], ◌∷◌, ◌++◌, ◌==◌, ltb, Bytes, drop, take,
  length, length-append, append_assoc, Bool-cases, ◌≡◌, refl, sym, ap, ◌∙◌, inl, inr, arith,
}
use gobackup_docker.Render.Escape.{
  ref_prefix_len, has_bare_dollar, escape_loop, escape_bare_dollars, dollar_sentinel_ref,
}
use gobackup_docker.Render.Escape.Copied.{escape_loop-append}
use gobackup_docker.Render.Escape.Reference.{
  reference_cases, ref_prefix_len-Bare, ref_prefix_len-Braced,
}
use gobackup_docker.Render.Escape.Rounds.{
  decided, byte_at, round, prepended, rounds, escape_by_index,
}

-- the reference at the start of a text, `{` and `}` included
record Head (t : Bytes) : Type 0 where
  name : Bytes
  rest : Bytes
  splits : t ≡ name ++ rest
  measures : ref_prefix_len t ≡ length name

head : (t : Bytes) → Head t
head t = elim (reference_cases t) [
  | inl z ↦ record { name = []; rest = t; splits = refl; measures = z }
  | inr (inl b) ↦ record {
    name = b.name;
    rest = b.rest;
    splits = b.splits;
    measures = ref_prefix_len-Bare b;
  }
  | inr (inr b) ↦ record {
    name = b'{' ∷ (b.name ++ b'}' ∷ []);
    rest = b.rest;
    splits = b.splits ∙ ap (λ r. b'{' ∷ r) (sym (append_assoc b.name (b'}' ∷ []) b.rest));
    measures = ref_prefix_len-Braced b ∙ omega (arith, length-append b.name (b'}' ∷ []));
  }
]

byte_at-append : (p : Bytes) (c : ℕ) (t : Bytes) → byte_at (length p) (p ++ c ∷ t) ≡ some c
unfolding byte_at
byte_at-append [] c t = refl
byte_at-append (d ∷ p) c t = byte_at-append p c t

take-append : (q r : Bytes) → take (length q) (q ++ r) ≡ q
take-append [] r = refl
take-append (c ∷ q) r = ap (◌∷◌ c) (take-append q r)

-- one byte on
onward : (p : Bytes) (c : ℕ) (t : Bytes) → p ++ c ∷ t ≡ (p ++ c ∷ []) ++ t
onward p c t = sym (append_assoc p (c ∷ []) t)

drop-onward : (p : Bytes) (c : ℕ) (t : Bytes) → drop (suc (length p)) (p ++ c ∷ t) ≡ t
drop-onward [] c t = refl
drop-onward (d ∷ p) c t = drop-onward p c t

-- A round at the byte `c` before `t` goes on behind what it passes of `t`, and prepended what the
-- structural loop does.
record Round (s : Bytes) (i c : ℕ) (t : Bytes) : Type 0 where
  out : Bytes
  copied : Bytes
  rest : Bytes
  splits : t ≡ copied ++ rest
  goes_on : round s i (some c) ≡ some (out, suc i + length copied)
  same : escape_loop 0 (c ∷ t) ≡ out ++ escape_loop 0 rest

-- nothing but `c` is passed
single :
    (s : Bytes) (i c : ℕ) (t out : Bytes)
    → round s i (some c) ≡ some (out, suc i)
    → escape_loop 0 (c ∷ t) ≡ out ++ escape_loop 0 t
    → Round s i c t
single s i c t out g e = record {
  out = out;
  copied = [];
  rest = t;
  splits = refl;
  goes_on = g ∙ ap (λ j. some (out, j)) (omega arith);
  same = e;
}

module _ (s : Bytes) (i c : ℕ) (t : Bytes) (dropped : drop (suc i) s ≡ t)
    (long : length s ≡ suc i + length t) where
  referred : (h : Head t) → (c == b'$') ≡ true → ltb 0 (ref_prefix_len t) ≡ true → Round s i c t
  unfolding round escape_loop
  referred h d r =
      let l : length t ≡ length h.name + length h.rest =
        ap length h.splits ∙ length-append h.name h.rest in
      let short : ltb (length s) (suc i + ref_prefix_len t) ≡ false =
        ground (arith, l, long, h.measures) in
      let dollar : c ≡ b'$' = ground arith in
      let name : take (ref_prefix_len t) t ≡ h.name =
        ap (λ n. take n t) h.measures
        ∙ ap (take (length h.name)) h.splits
        ∙ take-append h.name h.rest in
      let loop : escape_loop (ref_prefix_len t) t ≡ h.name ++ escape_loop 0 h.rest =
        ap (λ n. escape_loop n t) h.measures
        ∙ ap (escape_loop (length h.name)) h.splits
        ∙ escape_loop-append h.name h.rest in
      record {
        out = c ∷ h.name;
        copied = h.name;
        rest = h.rest;
        splits = h.splits;
        goes_on =
            rw (dropped, d, r, short, name, dollar)
              (ap (λ n. some (b'$' ∷ h.name, suc i + n)) h.measures);
        same = rw (d, r) (ap (◌∷◌ c) loop);
      }

  round_lem : Round s i c t
  unfolding round escape_loop
  round_lem = elim (Bool-cases (c == b'$')) [
    | inr o ↦ single s i c t (c ∷ []) (rw o refl) (rw o refl)
    | inl d ↦ elim (Bool-cases (ltb 0 (ref_prefix_len t))) [
      | inl r ↦ referred (head t) d r
      | inr z ↦
          let zero_ : ref_prefix_len t ≡ 0 = ground arith in
          single s i c t dollar_sentinel_ref (rw (dropped, d, z) refl) (rw (d, z, zero_) refl)
    ]
  ]

-- one round, and those after it
rounds-round :
    (f : ℕ) (s : Bytes) (i j c : ℕ) (out : Bytes)
    → ltb i (length s) ≡ true
    → byte_at i s ≡ some c
    → round s i (some c) ≡ some (out, j)
    → rounds (suc f) s i ≡ prepended out (rounds f s j)
unfolding rounds
rounds-round f s i j c out l b g =
    let rest : ℕ → Option Bytes = rounds f s in
    ap (λ d. decided d (round s i (byte_at i s)) rest) l
    ∙ ap (λ r. decided true r rest) (ap (round s i) b ∙ g)

rounds_end : (f : ℕ) (s : Bytes) (i : ℕ) → ltb i (length s) ≡ false → rounds (suc f) s i ≡ some []
unfolding rounds
rounds_end f s i l = ap (λ d. decided d (round s i (byte_at i s)) (λ k. rounds f s k)) l

rounds_lem :
    (f : ℕ) (p t : Bytes) → length t < f → rounds f (p ++ t) (length p) ≡ some (escape_loop 0 t)
unfolding escape_loop
rounds_lem zero p t h = absurd (omega arith)
rounds_lem (suc f) p [] h =
    rounds_end f (p ++ []) (length p) (let l = length-append p [] in ground (arith, l))
rounds_lem (suc f) p (c ∷ t) h =
    let l : length (p ++ c ∷ t) ≡ suc (length p) + length t =
      omega (arith, length-append p (c ∷ t)) in
    let r = round_lem (p ++ c ∷ t) (length p) c t (drop-onward p c t) l in
    let passed = p ++ c ∷ r.copied in
    let split : p ++ c ∷ t ≡ passed ++ r.rest =
      ap (λ q. p ++ c ∷ q) r.splits ∙ sym (append_assoc p (c ∷ r.copied) r.rest) in
    let here : suc (length p) + length r.copied ≡ length passed =
      omega (arith, length-append p (c ∷ r.copied)) in
    let less : length r.rest < f =
      omega (arith, ap length r.splits, length-append r.copied r.rest) in
    rounds-round f _ _ _ c r.out (ground (arith, l)) (byte_at-append p c t) r.goes_on
    ∙ ap (prepended r.out) (
        ap (λ u. rounds f u (suc (length p) + length r.copied)) split
        ∙ ap (rounds f (passed ++ r.rest)) here
        ∙ rounds_lem f passed r.rest less)
    ∙ ap some (sym r.same)

-- The loop by its index takes no more rounds than the text has bytes and one more, never reads
-- beyond the text, and prepended what the structural loop does.
pub escape_by_index_lem :
    (s : Bytes) → escape_by_index (suc (length s)) s ≡ some (escape_bare_dollars s)
unfolding escape_by_index escape_bare_dollars
escape_by_index_lem s = elim (Bool-cases (has_bare_dollar s)) [
  | inl y ↦ rw y (rounds_lem (suc (length s)) [] s (omega arith))
  | inr n ↦ rw n refl
]
