-- ===== src/Pipeline/Manage/Shell.antt =====
-- The command line of the wrapper as a POSIX shell reads it.
use gobackup_docker.Base.{
  ℕ, true, false, Option, none, some, List, [], ◌∷◌, ◌++◌, ◌==◌, Bytes, codes, replace_all, ◌≡◌,
  refl, ap, ◌∙◌, Bool-cases, ==_iff, inl, inr, append_assoc,
}
use gobackup_docker.Pipeline.Manage.{
  sh_quote, quoted_args, export_texts, SecretExport, wrap_command_with_secrets,
}

pub data Quoting : Type 0 where
  bare quoted escaped : Quoting

abbrev push : ℕ → Option (Bytes × Bytes) → Option (Bytes × Bytes)
push c none = none
push c (some (w, rest)) = some (c ∷ w, rest)

-- The rest of a word, and the text behind it. Inside single quotes all bytes up to the next quote
-- stand for themselves; outside, a backslash makes the next byte literal, and here any other byte
-- but a quote ends the word. `none` is a quote or a backslash that the text leaves open.
unfoldable pub read_word : Quoting → Bytes → Option (Bytes × Bytes)
read_word quoted [] = none
read_word quoted (c ∷ s) = elim (c == b'\'') [
  | true ↦ read_word bare s
  | false ↦ push c (read_word quoted s)
]
read_word escaped [] = none
read_word escaped (c ∷ s) = push c (read_word bare s)
read_word bare [] = some ([], [])
read_word bare (c ∷ s) = elim (c == b'\'') [
  | true ↦ read_word quoted s
  | false ↦ elim (c == b'\\') [ true ↦ read_word escaped s | false ↦ some ([], c ∷ s) ]
]

-- a text at which an unquoted word ends
abbrev pub EndsWord : Bytes → Type 0
EndsWord [] = Unit
EndsWord (c ∷ s) = ((c == b'\'') ≡ false) × ((c == b'\\') ≡ false)

read_word-end : (rest : Bytes) → EndsWord rest → read_word bare rest ≡ some ([], rest)
unfolding read_word
read_word-end [] h = refl
read_word-end (c ∷ s) h = rw (h.0, read_word) (rw (h.1, read_word))

read_word-body :
    (s rest : Bytes)
    → EndsWord rest
    → read_word quoted (replace_all s b'\'' (codes "'\\''") ++ (b'\'' ∷ rest)) ≡ some (s, rest)
unfolding read_word replace_all
read_word-body [] rest h = read_word-end rest h
read_word-body (c ∷ s) rest h = elim (Bool-cases (c == b'\'')) [
  | inl y ↦ rw ((==_iff c b'\'').0 y) (ap (push b'\'') (read_word-body s rest h))
  | inr n ↦ rw n (rw (n, read_word) (ap (push c) (read_word-body s rest h)))
]

-- The shell reads a quoted text, where a word can end behind it, back as one word, whatever bytes
-- it holds, and stops right behind it.
pub read_word-sh_quote :
    (s rest : Bytes) → EndsWord rest → read_word bare (sh_quote s ++ rest) ≡ some (s, rest)
unfolding sh_quote read_word
read_word-sh_quote s rest h =
    ap (read_word quoted) (append_assoc (replace_all s b'\'' (codes "'\\''")) (b'\'' ∷ []) rest)
    ∙ read_word-body s rest h

-- `ws` are the words of a command line in which a blank stands before each word.
pub data Words : Bytes → List Bytes → Type 0 where
  none_left : Words [] []
  word :
      {t rest : Bytes} {w : Bytes} {ws : List Bytes}
      → read_word bare t ≡ some (w, rest)
      → Words rest ws
      → Words (b' ' ∷ t) (w ∷ ws)

quoted_args-EndsWord : (base : List Bytes) → EndsWord (quoted_args base)
unfolding quoted_args
quoted_args-EndsWord [] = tt
quoted_args-EndsWord (a ∷ base) = (refl, refl)

quoted_args-Words : (base : List Bytes) → Words (quoted_args base) base
unfolding quoted_args
quoted_args-Words [] = none_left
quoted_args-Words (a ∷ base) =
    word (read_word-sh_quote a (quoted_args base) (quoted_args-EndsWord base))
      (quoted_args-Words base)

-- `t` is the exports of the list, each `export VAR="$(cat WORD)"; ` where the shell reads WORD as
-- the path, and then `rest`.
pub data Exports (rest : Bytes) : Bytes → List SecretExport → Type 0 where
  no_more : {t : Bytes} → t ≡ rest → Exports rest t []
  export :
      {t : Bytes} {es : List SecretExport} (e : SecretExport) (u more : Bytes)
      → t ≡ codes "export " ++ (e.var ++ (codes "=\"$(cat " ++ u))
      → read_word bare u ≡ some (e.path, codes ")\"; " ++ more)
      → Exports rest more es
      → Exports rest t (e ∷ es)

export_texts-Exports :
    (rest : Bytes) (es : List SecretExport) → Exports rest (export_texts es ++ rest) es
unfolding export_texts
export_texts-Exports rest [] = no_more refl
export_texts-Exports rest (e ∷ es) =
    let more = export_texts es ++ rest in
    export e (sh_quote e.path ++ (codes ")\"; " ++ more)) more (simp append_assoc)
      (read_word-sh_quote e.path (codes ")\"; " ++ more) (refl, refl))
      (export_texts-Exports rest es)

-- The command that is to run `base` with the secrets of the list: `base` itself if there are none,
-- else /bin/sh -c of the exports, `exec` and the words of `base`.
abbrev pub Runs : List Bytes → List SecretExport → List Bytes → Type 0
Runs base [] cmd = cmd ≡ base
Runs base (e ∷ es) cmd =
    (t args : Bytes) × (cmd ≡ codes "/bin/sh" ∷ codes "-c" ∷ t ∷ [])
    × Exports (codes "exec" ++ args) t (e ∷ es)
    × Words args base

-- With secrets to export, the command is /bin/sh -c of one text: an export of each secret, its path
-- read by the shell as the one word that it is, then `exec` and words that the shell reads as the
-- base command. Without secrets it is the base command.
pub wrap_command_lem :
    (base : List Bytes) (es : List SecretExport) → Runs base es (wrap_command_with_secrets base es)
unfolding wrap_command_with_secrets
wrap_command_lem base [] = refl
wrap_command_lem base (e ∷ es) = (
  export_texts (e ∷ es) ++ (codes "exec" ++ quoted_args base),
  quoted_args base,
  refl,
  export_texts-Exports (codes "exec" ++ quoted_args base) (e ∷ es),
  quoted_args-Words base,
)
