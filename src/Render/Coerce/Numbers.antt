-- ===== src/Render/Coerce/Numbers.antt =====
-- Coercing a text to a scalar is cosmetic: the scalar is written as the text was.
use gobackup_docker.Base.{
  ==_iff, append-nil, ℕ, zero, suc, ◌+◌, ◌-◌, ◌*◌, ◌^◌, ◌<◌, Bool, true, false, ◌&&◌, Option, none,
  some, [], ◌∷◌, ◌++◌, ◌==◌, leb, ltb, Bytes, codes, str_eq, str_eq_iff, to_lower, is_empty,
  if◌then◌else◌, ◌≡◌, ◌≢◌, refl, sym, ap, ◌∙◌, arith, Bool-cases, inl, inr, append_assoc,
}
use gobackup_docker.Base.Decimal.{decimal, decimal_push, decimal_digit}
use gobackup_docker.Tree.{Value, str, boolean, int, ℤ, pos, negsuc}
use gobackup_docker.Render.Coerce.{
  number_or_text, is_digit_byte, all_digits, plain_digits, is_plain_int, digits_value, negated,
  parse_int, is_protected_key, coerce_scalar,
}

-- %d
abbrev pub decimal_int : ℤ → Bytes
decimal_int (pos n) = decimal n
decimal_int (negsuc n) = b'-' ∷ decimal (suc n)

abbrev pub bool_text : Bool → Bytes
bool_text true = codes "true"
bool_text false = codes "false"

decimal-digits_value :
    (n : ℕ) (s : Bytes) → 0 < n → all_digits s ≡ true → decimal (digits_value n s) ≡ decimal n ++ s
unfolding digits_value all_digits
decimal-digits_value n [] h d = sym (append-nil (decimal n))
decimal-digits_value n (c ∷ s) h d =
    let small : c - b'0' < 10 = ground arith in
    let back : c - b'0' + b'0' ≡ c = ground arith in
    decimal-digits_value (10 * n + (c - b'0')) s (omega arith) (ground arith)
    ∙ rw (decimal_push n (c - b'0') h small, back) (append_assoc (decimal n) (c ∷ []) s)

-- one digit byte
decimal_byte : (c : ℕ) → is_digit_byte c ≡ true → decimal (0 + (c - b'0')) ≡ c ∷ []
decimal_byte c h =
    let small : 0 + (c - b'0') < 10 = ground arith in
    let back : 0 + (c - b'0') + b'0' ≡ c = ground arith in
    decimal_digit (0 + (c - b'0')) small ∙ rw back

-- A canonical run of digits is the decimal text of its value.
decimal-plain_digits : (s : Bytes) → plain_digits s ≡ true → decimal (digits_value 0 s) ≡ s
unfolding digits_value all_digits
decimal-plain_digits [] h = cc
decimal-plain_digits (c ∷ []) h = decimal_byte c (ground arith)
decimal-plain_digits (c ∷ d ∷ s) h =
    decimal-digits_value (0 + (c - b'0')) (d ∷ s) (ground arith) (ground arith)
    ∙ ap (λ (u : Bytes). u ++ (d ∷ s)) (decimal_byte c (ground arith))

plain_digits-all : (s : Bytes) → plain_digits s ≡ true → all_digits s ≡ true
unfolding all_digits
plain_digits-all [] h = cc
plain_digits-all (c ∷ []) h = ground arith
plain_digits-all (c ∷ d ∷ s) h = ground arith

-- the digits of a negative number that is not "-0" have a value above zero
plain_digits-pos : (s : Bytes) → plain_digits s ≡ true → s ≢ codes "0" → 0 < digits_value 0 s
plain_digits-pos s h ne = positive (digits_value 0 s) refl
  where
    positive : (v : ℕ) → digits_value 0 s ≡ v → 0 < v
    positive zero e =
        absurd (ne (sym (decimal-plain_digits s h) ∙ ap decimal e ∙ decimal_digit 0 (omega arith)))
    positive (suc v) e = omega arith

decimal_int-negated : (n : ℕ) → 0 < n → decimal_int (negated n) ≡ b'-' ∷ decimal n
decimal_int-negated zero h = elim h [ ]
decimal_int-negated (suc n) h = refl

plain_not_empty : (s : Bytes) → plain_digits s ≡ true → is_empty s ≡ false
plain_not_empty [] h = cc
plain_not_empty (c ∷ s) h = refl

parse_int_minus :
    (s : Bytes) (n : ℤ)
    → plain_digits s ≡ true
    → parse_int (b'-' ∷ s) ≡ some n
    → negated (digits_value 0 s) ≡ n
unfolding parse_int
parse_int_minus s n h e =
    bounded (leb (digits_value 0 s) (2 ^ 63)) (rw (plain_not_empty s h, plain_digits-all s h) at e)
  where
    bounded :
        (b : Bool)
        → (if b then some (negated (digits_value 0 s)) else none) ≡ some n
        → negated (digits_value 0 s) ≡ n
    bounded true p = cc
    bounded false p = cc

plain_not_plus : (c : ℕ) (s : Bytes) → plain_digits (c ∷ s) ≡ true → (c == b'+') ≡ false
unfolding all_digits
plain_not_plus c s h = ground arith

parse_int_bare :
    (c : ℕ) (s : Bytes) (n : ℤ)
    → (c == b'-') ≡ false
    → plain_digits (c ∷ s) ≡ true
    → parse_int (c ∷ s) ≡ some n
    → pos (digits_value 0 (c ∷ s)) ≡ n
unfolding parse_int
parse_int_bare c s n o h e =
    bounded (ltb (digits_value 0 (c ∷ s)) (2 ^ 63))
      (rw (o, plain_not_plus c s h, plain_digits-all (c ∷ s) h) at e)
  where
    bounded :
        (b : Bool)
        → (if b then some (pos (digits_value 0 (c ∷ s))) else none) ≡ some n
        → pos (digits_value 0 (c ∷ s)) ≡ n
    bounded true p = cc
    bounded false p = cc

-- A canonical integer that parses is the decimal text of what it parses to, "-0" aside.
pub parse_int-plain :
    (s : Bytes) (n : ℤ)
    → is_plain_int s ≡ true
    → s ≢ codes "-0"
    → parse_int s ≡ some n
    → decimal_int n ≡ s
unfolding is_plain_int
parse_int-plain [] n h ne e = cc
parse_int-plain (c ∷ s) n h ne e = elim (Bool-cases (c == b'-')) [
  | inl y ↦
      let same : c ≡ b'-' = (==_iff c b'-').0 y in
      let plain : plain_digits s ≡ true = rw y at h in
      rw same (
        sym (ap decimal_int (parse_int_minus s n plain (rw same at e)))
        ∙ decimal_int-negated (digits_value 0 s) (plain_digits-pos s plain (λ z. ne (rw (same, z))))
        ∙ ap (◌∷◌ b'-') (decimal-plain_digits s plain))
  | inr o ↦
      let plain : plain_digits (c ∷ s) ≡ true = rw o at h in
      sym (ap decimal_int (parse_int_bare c s n o plain e)) ∙ decimal-plain_digits (c ∷ s) plain
]

-- The scalar says what the text says.
abbrev pub Says : Bytes → Value → Type 0
Says s (str t) = t ≡ s
Says s (int n) = decimal_int n ≡ s
Says s (boolean b) = bool_text b ≡ to_lower s
Says s _ = ⊥

abbrev pub is_int : Value → Bool
is_int (int n) = true
is_int _ = false

number_or_text-Says :
    (s : Bytes) (o : Option ℤ)
    → parse_int s ≡ o
    → is_plain_int s ≡ true
    → s ≢ codes "-0"
    → Says s (number_or_text o s)
number_or_text-Says s none e p ne = refl
number_or_text-Says s (some n) e p ne = parse_int-plain s n p ne e

and_no : (b : Bool) → (b && false) ≡ false
and_no b = ground arith

-- The scalar that a text other than "-0" becomes is written as the text was, a boolean in lower case,
-- under whatever key, and under an identifier, secret or host key it is no number.
pub coerce_scalar_lem :
    (key s : Bytes)
    → s ≢ codes "-0"
    → Says s (coerce_scalar key s)
      × ((is_protected_key key && is_int (coerce_scalar key s)) ≡ false)
unfolding coerce_scalar
coerce_scalar_lem key s ne = elim (Bool-cases (str_eq (to_lower s) (codes "true"))) [
  | inl t ↦ rw t (sym ((str_eq_iff _ _).0 t), and_no _)
  | inr nt ↦ rw nt (elim (Bool-cases (str_eq (to_lower s) (codes "false"))) [
    | inl f ↦ rw f (sym ((str_eq_iff _ _).0 f), and_no _)
    | inr nf ↦ rw nf (elim (Bool-cases (is_protected_key key)) [
      | inl p ↦ rw p (refl, refl)
      | inr np ↦ rw np (elim (Bool-cases (is_plain_int s)) [
        | inl i ↦ rw i (number_or_text-Says s (parse_int s) refl i ne, refl)
        | inr ni ↦ rw ni (refl, refl)
      ])
    ])
  ])
]
