-- ===== src/Render/Escape/Rounds.antt =====
-- The loop of EscapeBareDollars of internal/render/escape.go by its index, as the code counts it.
pub mod Ends
use gobackup_docker.Base.{
  ℕ, zero, suc, ◌+◌, Bool, true, false, Option, none, some, [], ◌∷◌, ◌++◌, ◌==◌, ltb, Bytes, drop,
  take, length, if◌then◌else◌,
}
use gobackup_docker.Render.Escape.{ref_prefix_len, has_bare_dollar, dollar_sentinel_ref}

-- s[i], `none` where the program would panic
unfoldable pub byte_at : ℕ → Bytes → Option ℕ
byte_at i [] = none
byte_at zero (c ∷ s) = some c
byte_at (suc i) (c ∷ s) = byte_at i s

-- s[i:i+n], likewise
unfoldable pub slice : ℕ → ℕ → Bytes → Option Bytes
slice i n s = if ltb (length s) (i + n) then none else some (take n (drop i s))

abbrev pub referred_to : ℕ → Option Bytes → Option (Bytes × ℕ)
referred_to j none = none
referred_to j (some name) = some (b'$' ∷ name, j)

-- what a round at a byte prepended, and the index of the next round
unfoldable pub round : Bytes → ℕ → Option ℕ → Option (Bytes × ℕ)
unfolding slice
round s i none = none
round s i (some c) =
    let n = ref_prefix_len (drop (suc i) s) in
    if c == b'$'
    then (if ltb 0 n
        then referred_to (suc i + n) (slice (suc i) n s)
        else some (dollar_sentinel_ref, suc i))
    else some (c ∷ [], suc i)

abbrev pub prepended : Bytes → Option Bytes → Option Bytes
prepended p none = none
prepended p (some t) = some (p ++ t)

-- whether the index is in the text, what the round gives, and the rounds after it
abbrev pub decided : Bool → Option (Bytes × ℕ) → (ℕ → Option Bytes) → Option Bytes
decided false r rest = some []
decided true none rest = none
decided true (some (p, j)) rest = prepended p (rest j)

-- the rounds from an index on, at most as many as the number; `none` is a panic, or too few rounds
unfoldable pub rounds : ℕ → Bytes → ℕ → Option Bytes
unfolding byte_at round
rounds zero s i = none
rounds (suc f) s i = decided (ltb i (length s)) (round s i (byte_at i s)) (λ j. rounds f s j)

unfoldable pub escape_by_index : ℕ → Bytes → Option Bytes
unfolding rounds has_bare_dollar
escape_by_index f s = if has_bare_dollar s then rounds f s 0 else some s
