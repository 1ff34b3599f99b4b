-- ===== src/Base/Decimal.antt =====
-- The decimal text of a number (%d).
use Prim.Native.Nat.{ℕ, zero, suc, ◌+◌, ◌*◌, ◌/◌, ◌%◌, ◌<◌}
use mathlib.Core.Bool.{true, false}
use mathlib.Core.List.{[], ◌∷◌, ◌++◌}
use mathlib.Core.Path.{◌≡◌}
use native.Mathlib.Omega.{arith}
use gobackup_docker.Base.Flow.{ltb, if◌then◌else◌, Bool-cases}
use gobackup_docker.Base.Text.{Bytes}
use mathlib.Core.Logic.{inl, inr}

-- the digits of `n`, with fuel above `n`
digits_onto : ℕ → ℕ → Bytes
digits_onto zero n = []
digits_onto (suc f) n =
    let front = digits_onto f (n / 10) in
    if ltb n 10 then (n + b'0') ∷ [] else front ++ (n % 10 + b'0') ∷ []

unfoldable pub decimal : ℕ → Bytes
unfolding digits_onto
decimal n = digits_onto (suc n) n

digits_onto_fuel : (f g n : ℕ) → n < f → n < g → digits_onto f n ≡ digits_onto g n
unfolding digits_onto
digits_onto_fuel zero g n h k = elim h [ ]
digits_onto_fuel (suc f) zero n h k = elim k [ ]
digits_onto_fuel (suc f) (suc g) n h k = elim (Bool-cases (ltb n 10)) [
  | inl y ↦ rw y
  | inr y ↦ rw (y, digits_onto_fuel f g (n / 10) (ground arith) (ground arith))
]

-- One more digit behind a number that is not zero.
pub decimal_push : (n d : ℕ) → 0 < n → d < 10 → decimal (10 * n + d) ≡ decimal n ++ (d + b'0') ∷ []
unfolding decimal
decimal_push n d h k =
    let big : ltb (10 * n + d) 10 ≡ false = ground arith in
    let q : (10 * n + d) / 10 ≡ n = omega arith in
    let r : (10 * n + d) % 10 ≡ d = omega arith in
    rw (big, q, r, digits_onto_fuel (10 * n + d) (suc n) n (omega arith) (omega arith))

pub decimal_digit : (d : ℕ) → d < 10 → decimal d ≡ (d + b'0') ∷ []
unfolding decimal
decimal_digit d h = let small : ltb d 10 ≡ true = ground arith in rw small
