-- ===== src/Render/Escape/Expand.antt =====
-- os.Expand of Go's standard library, which gobackup runs over the whole file before it parses it.
use gobackup_docker.Base.{
  ℕ, zero, suc, ◌+◌, Bool, false, not, ◌&&◌, ◌||◌, Option, none, some, [], ◌∷◌, ◌++◌, ◌==◌, leb,
  Bytes, length, is_empty, if◌then◌else◌,
}
use gobackup_docker.Render.Escape.{is_name_byte}

-- isShellSpecialVar
unfoldable pub is_shell_special : ℕ → Bool
is_shell_special c =
    c == b'*'
    || c == b'#'
    || c == b'$'
    || c == b'@'
    || c == b'!'
    || c == b'?'
    || c == b'-'
    || leb b'0' c && leb c b'9'

-- the bytes before the first '}'
unfoldable pub to_brace : Bytes → Option Bytes
to_brace [] = none
to_brace (c ∷ s) =
    let rest = to_brace s in
    if c == b'}' then some [] else elim rest [ none ↦ none | some n ↦ some (c ∷ n) ]

abbrev one_special : Bytes → Bool
one_special (c ∷ d ∷ s) = is_shell_special c && d == b'}'
one_special _ = false

abbrev scanned : Option Bytes → Bytes × ℕ
scanned none = ([], 1)
scanned (some []) = ([], 2)
scanned (some (c ∷ n)) = (c ∷ n, length n + 3)

abbrev first_byte : Bytes → Bytes
first_byte [] = []
first_byte (c ∷ s) = c ∷ []

-- the text after "${": the name and the width that getShellName returns
pub braced_name : Bytes → Bytes × ℕ
unfolding is_shell_special
braced_name s = if one_special s then (first_byte s, 3) else scanned (to_brace s)

unfoldable pub take_name : Bytes → Bytes
take_name [] = []
take_name (c ∷ s) = let rest = take_name s in if is_name_byte c then c ∷ rest else []

-- getShellName
unfoldable pub shell_name : Bytes → Bytes × ℕ
unfolding braced_name
shell_name [] = ([], 0)
shell_name (c ∷ s) =
    if c == b'{'
    then braced_name s
    else if is_shell_special c
    then (c ∷ [], 1)
    else (take_name (c ∷ s), length (take_name (c ∷ s)))

-- what Expand writes for a name of some width
abbrev pub replacement : (Bytes → Bytes) → Bytes × ℕ → Bytes
replacement env ([], zero) = b'$' ∷ []
replacement env ([], suc w) = []
replacement env (c ∷ n, w) = env (c ∷ n)

-- The loop of Expand; the number counts the bytes of a reference still to be passed over.
unfoldable pub expand_loop : (Bytes → Bytes) → ℕ → Bytes → Bytes
expand_loop env n [] = []
expand_loop env (suc n) (c ∷ s) = expand_loop env n s
expand_loop env zero (c ∷ s) =
    let dollar = c == b'$' && not (is_empty s) in
    (if dollar then replacement env (shell_name s) else c ∷ [])
    ++ expand_loop env (if dollar then (shell_name s).1 else 0) s

unfoldable pub expand : (Bytes → Bytes) → Bytes → Bytes
unfolding expand_loop
expand env s = expand_loop env 0 s
