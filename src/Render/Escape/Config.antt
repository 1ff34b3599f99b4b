-- ===== src/Render/Escape/Config.antt =====
-- internal/render/escape.go: escaping a config document, and the paths of what would be escaped.
pub mod Leaves
use gobackup_docker.Base.{
  ℕ, suc, ◌+◌, Bool, true, false, not, ◌&&◌, ◌||◌, Option, none, some, List, [], ◌∷◌, ◌++◌, Bytes,
  str_eq, is_empty, if◌then◌else◌,
}
use gobackup_docker.Base.Decimal.{decimal}
use gobackup_docker.Base.Sort.{sort_texts}
use gobackup_docker.Tree.{Value, str, arr, obj, Items, nil, cons, Fields, end, field}
use gobackup_docker.Render.Escape.{has_bare_dollar, escape_bare_dollars}

-- The value with the escaped texts, and whether any text changed. A value of the `default` case, a
-- []string among them, stays.
unfoldable mutual
  pub escape_value : Value → Value × Bool
  escape_value (str s) = (str (escape_bare_dollars s), not (str_eq (escape_bare_dollars s) s))
  escape_value (obj m) = (obj (escape_fields m).0, (escape_fields m).1)
  escape_value (arr xs) = (arr (escape_items xs).0, (escape_items xs).1)
  escape_value v = (v, false)

  pub escape_items : Items → Items × Bool
  escape_items nil = (nil, false)
  escape_items (cons x xs) = (
    cons (if (escape_value x).1 then (escape_value x).0 else x) (escape_items xs).0,
    (escape_value x).1 || (escape_items xs).1,
  )

  pub escape_fields : Fields → Fields × Bool
  escape_fields end = (end, false)
  escape_fields (field k v m) = (
    field k (if (escape_value v).1 then (escape_value v).0 else v) (escape_fields m).0,
    (escape_value v).1 || (escape_fields m).1,
  )

-- the document after the call, and its result
unfoldable pub escape_config : Fields → Fields × Bool
unfolding escape_value
escape_config cfg = escape_fields cfg

-- prefix + "." + k, without the dot at the root
abbrev pub dotted : Bytes → Bytes → Bytes
dotted prefix k = if is_empty prefix then k else prefix ++ (b'.' ∷ k)

-- prefix[i]
abbrev pub indexed : Bytes → ℕ → Bytes
indexed prefix i = prefix ++ (b'[' ∷ (decimal i ++ (b']' ∷ [])))

-- the paths that the walk appends, in its order
unfoldable mutual
  pub collect_bare_dollar_paths : Value → Bytes → List Bytes
  collect_bare_dollar_paths (str s) prefix = if has_bare_dollar s then prefix ∷ [] else []
  collect_bare_dollar_paths (obj m) prefix = collect_fields m prefix
  collect_bare_dollar_paths (arr xs) prefix = collect_items xs prefix 0
  collect_bare_dollar_paths v prefix = []

  pub collect_items : Items → Bytes → ℕ → List Bytes
  collect_items nil prefix i = []
  collect_items (cons x xs) prefix i =
      collect_bare_dollar_paths x (indexed prefix i) ++ collect_items xs prefix (suc i)

  pub collect_fields : Fields → Bytes → List Bytes
  collect_fields end prefix = []
  collect_fields (field k v m) prefix =
      collect_bare_dollar_paths v (dotted prefix k) ++ collect_fields m prefix

unfoldable pub bare_dollar_paths : Fields → List Bytes
unfolding collect_bare_dollar_paths sort_texts
bare_dollar_paths cfg = sort_texts (collect_fields cfg [])
