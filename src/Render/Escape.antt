-- ===== src/Render/Escape.antt =====
-- internal/render/escape.go: the sentinel for a literal '$'.
pub mod Expand
pub mod Reference
pub mod Rounds
mod Copied
pub mod Literal
pub mod Clean
pub mod Config
use gobackup_docker.Base.{
  ℕ, zero, suc, ◌+◌, Bool, true, false, ◌&&◌, ◌||◌, List, [], ◌∷◌, ◌++◌, ◌==◌, leb, ltb, Bytes,
  codes, drop, if◌then◌else◌,
}

abbrev pub dollar_sentinel_var : Bytes
dollar_sentinel_var = codes "GB_DOLLAR"

abbrev pub dollar_sentinel_value : Bytes
dollar_sentinel_value = codes "$"

abbrev pub dollar_sentinel_ref : Bytes
dollar_sentinel_ref = codes "${GB_DOLLAR}"

unfoldable pub is_letter : ℕ → Bool
is_letter c = leb b'a' c && leb c b'z' || leb b'A' c && leb c b'Z'

unfoldable pub is_name_byte : ℕ → Bool
unfolding is_letter
is_name_byte c = is_letter c || leb b'0' c && leb c b'9' || c == b'_'

-- how many name bytes the loop `for j < len(s) && isNameByte(s[j])` passes
unfoldable pub name_run : Bytes → ℕ
name_run [] = 0
name_run (c ∷ s) = let rest = name_run s in if is_name_byte c then suc rest else 0

-- j < len(s) && s[j] == b, on s[j:]
abbrev pub next_is : ℕ → Bytes → Bool
next_is b [] = false
next_is b (c ∷ s) = c == b

-- the text after a '{'
pub braced_len : Bytes → ℕ
braced_len [] = 0
braced_len (c ∷ s) =
    let j = 2 + name_run s in
    if is_letter c then (if leb 3 j && next_is b'}' (drop (name_run s) s) then j + 1 else 0) else 0

unfoldable pub ref_prefix_len : Bytes → ℕ
unfolding braced_len
ref_prefix_len [] = 0
ref_prefix_len (c ∷ s) =
    let j = 1 + name_run s in
    if c == b'{' then braced_len s else if is_letter c then (if leb 2 j then j else 0) else 0

unfoldable pub has_bare_dollar : Bytes → Bool
has_bare_dollar [] = false
has_bare_dollar (c ∷ s) = c == b'$' && ref_prefix_len s == 0 || has_bare_dollar s

-- The loop of EscapeBareDollars; the number counts the bytes of a reference still to be copied.
unfoldable pub escape_loop : ℕ → Bytes → Bytes
escape_loop n [] = []
escape_loop (suc n) (c ∷ s) = c ∷ escape_loop n s
escape_loop zero (c ∷ s) =
    let n = ref_prefix_len s in
    (if c == b'$' then (if ltb 0 n then c ∷ [] else dollar_sentinel_ref) else c ∷ [])
    ++ escape_loop (if c == b'$' then n else 0) s

unfoldable pub escape_bare_dollars : Bytes → Bytes
unfolding has_bare_dollar escape_loop
escape_bare_dollars s = if has_bare_dollar s then escape_loop 0 s else s
