-- ===== src/Render/Coerce/Limits.antt =====
-- The integers that coercion reads back: those of 64 bits, and no other.
use gobackup_docker.Base.{
  is_upper, subst, ℕ, zero, suc, ◌+◌, ◌-◌, ◌*◌, ◌/◌, ◌%◌, ◌^◌, ◌<◌, Bool, true, false, not, none,
  some, [], ◌∷◌, ◌++◌, ◌==◌, leb, ltb, Bytes, codes, str_eq, to_lower, is_empty, if◌then◌else◌, ◌≡◌,
  refl, ap, ◌∙◌, arith, Bool-cases, inl, inr,
}
use gobackup_docker.Base.Decimal.{decimal, decimal_push, decimal_digit}
use gobackup_docker.Tree.{Value, str, int, ℤ, pos, negsuc}
use gobackup_docker.Render.Coerce.{
  digits_value, parse_int, is_digit_byte, all_digits, plain_digits, is_plain_int, number_or_text,
  is_protected_key, coerce_scalar,
}
use gobackup_docker.Render.Coerce.Numbers.{decimal_int}

-- a text that begins with a byte other than '0'
abbrev begins : Bytes → Bool
begins [] = false
begins (c ∷ s) = not (c == b'0')

all_digits-behind :
    (s : Bytes) (c : ℕ)
    → all_digits s ≡ true
    → is_digit_byte c ≡ true
    → all_digits (s ++ c ∷ []) ≡ true
unfolding all_digits
all_digits-behind [] c h k = ground arith
all_digits-behind (x ∷ s) c h k = ground (arith, all_digits-behind s c)

digits_value-behind :
    (m : ℕ) (s : Bytes) (c : ℕ) → digits_value m (s ++ c ∷ []) ≡ 10 * digits_value m s + (c - b'0')
unfolding digits_value
digits_value-behind m [] c = refl
digits_value-behind m (x ∷ s) c = digits_value-behind (10 * m + (x - b'0')) s c

begins-append : (s t : Bytes) → begins s ≡ true → begins (s ++ t) ≡ true
begins-append [] t h = cc
begins-append (c ∷ s) t h = h

-- what the decimal text of a number above zero is
record Reads (n : ℕ) (s : Bytes) : Type 0 where
  digits : all_digits s ≡ true
  value : digits_value 0 s ≡ n
  first : begins s ≡ true

digit-Reads : (d : ℕ) → 0 < d → d < 10 → Reads d ((d + b'0') ∷ [])
unfolding digits_value all_digits
digit-Reads d h k = record { digits = ground arith; value = omega arith; first = ground arith }

push-Reads :
    (n d : ℕ) → d < 10 → Reads n (decimal n) → Reads (10 * n + d) (decimal n ++ (d + b'0') ∷ [])
push-Reads n d k r = record {
  digits = all_digits-behind (decimal n) (d + b'0') r.digits (ground arith);
  value = digits_value-behind 0 (decimal n) (d + b'0') ∙ rw r.value (omega arith);
  first = begins-append (decimal n) _ r.first;
}

decimal-Reads : (fuel n : ℕ) → n < fuel → 0 < n → Reads n (decimal n)
decimal-Reads zero n h k = absurd (omega arith)
decimal-Reads (suc fuel) n h k = elim (Bool-cases (ltb n 10)) [
  | inl y ↦ rw (decimal_digit n (ground arith)) (digit-Reads n k (ground arith))
  | inr big ↦
      let q = n / 10 in
      let d = n % 10 in
      let whole : 10 * q + d ≡ n = omega arith in
      let above : 0 < q = ground arith in
      let small : d < 10 = omega arith in
      let r = push-Reads q d small (decimal-Reads fuel q (omega arith) above) in
      subst (λ m. Reads m (decimal m)) whole (rw (decimal_push q d above small) r)
]

-- a text of digits, with a sign or not, is no word of small letters
no_word :
    (c : ℕ) (s : Bytes) (x : ℕ) (w : Bytes)
    → ltb c b'A' ≡ true
    → leb b'a' x ≡ true
    → str_eq (to_lower (c ∷ s)) (x ∷ w) ≡ false
unfolding str_eq to_lower is_upper
no_word c s x w h k = ground arith

-- what coercion makes of a number, if it fits or not
abbrev pub read_back : Bool → ℤ → Value
read_back true n = int n
read_back false n = str (decimal_int n)

-- the numbers of 64 bits
abbrev pub is_int64 : ℤ → Bool
is_int64 (pos n) = ltb n (2 ^ 63)
is_int64 (negsuc n) = ltb n (2 ^ 63)

plain_of_begins : (s : Bytes) → begins s ≡ true → all_digits s ≡ true → plain_digits s ≡ true
plain_of_begins [] h d = cc
plain_of_begins (c ∷ s) h d = ground arith

not_empty_of_begins : (s : Bytes) → begins s ≡ true → is_empty s ≡ false
not_empty_of_begins [] h = cc
not_empty_of_begins (c ∷ s) h = refl

digit_of_all : (c : ℕ) (s : Bytes) → all_digits (c ∷ s) ≡ true → is_digit_byte c ≡ true
unfolding all_digits
digit_of_all c s h = ground arith

number-read_back :
    (s : Bytes) (n : ℤ) (b : Bool)
    → s ≡ decimal_int n
    → number_or_text (if b then some n else none) s ≡ read_back b n
number-read_back s n true e = refl
number-read_back s n false e = ap str e

module _ (key : Bytes) (free : is_protected_key key ≡ false) where
  scalar_of_plain :
      (c : ℕ) (s : Bytes)
      → ltb c b'A' ≡ true
      → is_plain_int (c ∷ s) ≡ true
      → coerce_scalar key (c ∷ s) ≡ number_or_text (parse_int (c ∷ s)) (c ∷ s)
  unfolding coerce_scalar
  scalar_of_plain c s h p =
      rw (no_word c s b't' (codes "rue") h refl, no_word c s b'f' (codes "alse") h refl, free, p)
        refl

  positive_text :
      (n : ℕ) (s : Bytes)
      → s ≡ decimal n
      → Reads n s
      → coerce_scalar key s ≡ read_back (ltb n (2 ^ 63)) (pos n)
  unfolding is_plain_int parse_int
  positive_text n [] e r = cc (r.first)
  positive_text n (c ∷ s) e r =
      let digit = digit_of_all c s r.digits in
      let plain = plain_of_begins (c ∷ s) r.first r.digits in
      let minus : (c == b'-') ≡ false = ground arith in
      let plus : (c == b'+') ≡ false = ground arith in
      scalar_of_plain c s (ground arith) (rw minus plain)
      ∙ rw (minus, plus, r.digits, r.value) (number-read_back (c ∷ s) (pos n) (ltb n (2 ^ 63)) e)

  negative_text :
      (n : ℕ) (s : Bytes)
      → s ≡ decimal (suc n)
      → Reads (suc n) s
      → coerce_scalar key (b'-' ∷ s) ≡ read_back (ltb n (2 ^ 63)) (negsuc n)
  unfolding is_plain_int parse_int
  negative_text n s e r =
      let same : leb (suc n) (2 ^ 63) ≡ ltb n (2 ^ 63) = ground arith in
      scalar_of_plain b'-' s refl (plain_of_begins s r.first r.digits)
      ∙ rw (not_empty_of_begins s r.first, r.digits, r.value, same)
          (number-read_back (b'-' ∷ s) (negsuc n) (ltb n (2 ^ 63)) (ap (◌∷◌ b'-') e))

  -- Under a key that is not protected, the decimal text of an integer of any size becomes that integer
  -- if it has 64 bits, and stays a text if it has more.
  pub coerce_scalar-decimal_int :
      (n : ℤ) → coerce_scalar key (decimal_int n) ≡ read_back (is_int64 n) n
  unfolding is_plain_int parse_int
  coerce_scalar-decimal_int (pos zero) =
      rw (decimal_digit 0 (omega arith)) (scalar_of_plain b'0' [] refl refl)
  coerce_scalar-decimal_int (pos (suc n)) =
      positive_text (suc n) (decimal (suc n)) refl
        (decimal-Reads (suc (suc n)) (suc n) (omega arith) (omega arith))
  coerce_scalar-decimal_int (negsuc n) =
      negative_text n (decimal (suc n)) refl
        (decimal-Reads (suc (suc n)) (suc n) (omega arith) (omega arith))
