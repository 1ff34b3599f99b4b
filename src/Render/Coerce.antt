-- ===== src/Render/Coerce.antt =====
-- internal/render/coerce.go: label texts as native scalars and arrays.
pub mod Numbers
pub mod Limits
use gobackup_docker.Base.{
  ℕ, zero, suc, ◌+◌, ◌-◌, ◌*◌, ◌^◌, Bool, true, false, not, ◌&&◌, ◌||◌, Option, none, some, List,
  [], ◌∷◌, ◌++◌, ◌==◌, leb, ltb, Bytes, codes, str_eq, split, trim_space, to_lower, has_suffix,
  contains_text, is_empty, if◌then◌else◌,
}
use gobackup_docker.Tree.{
  Value, str, boolean, int, ℤ, pos, negsuc, arr, obj, Items, nil, cons, Fields, end, field,
}

abbrev pub array_field_patterns : List (List Bytes)
array_field_patterns =
    (codes "archive" ∷ codes "includes" ∷ [])
    ∷ (codes "archive" ∷ codes "excludes" ∷ [])
    ∷ (codes "databases" ∷ codes "*" ∷ codes "tables" ∷ [])
    ∷ (codes "databases" ∷ codes "*" ∷ codes "exclude_tables" ∷ [])
    ∷ (codes "databases" ∷ codes "*" ∷ codes "exclude_tables_prefix" ∷ [])
    ∷ (codes "databases" ∷ codes "*" ∷ codes "skip_databases" ∷ [])
    ∷ (codes "databases" ∷ codes "*" ∷ codes "endpoints" ∷ [])
    ∷ []

-- the inner loop, for a pattern and a path; they differ in length, or segment by segment
unfoldable pub pattern_matches : List Bytes → List Bytes → Bool
pattern_matches [] [] = true
pattern_matches (seg ∷ pat) (p ∷ path) =
    (str_eq seg (codes "*") || str_eq seg p) && pattern_matches pat path
pattern_matches _ _ = false

unfoldable pub matches_any : List (List Bytes) → List Bytes → Bool
matches_any [] path = false
matches_any (pat ∷ pats) path = pattern_matches pat path || matches_any pats path

unfoldable pub is_array_field : List Bytes → Bool
unfolding matches_any pattern_matches
is_array_field path = matches_any array_field_patterns path

-- trims each piece and drops the empty ones
unfoldable pub trimmed_items : List Bytes → List Bytes
trimmed_items [] = []
trimmed_items (item ∷ raw) =
    let rest = trimmed_items raw in
    if is_empty (trim_space item) then rest else trim_space item ∷ rest

unfoldable pub split_csv : Bytes → List Bytes
unfolding trimmed_items
split_csv s = if is_empty s then [] else trimmed_items (split s b',')

abbrev pub is_digit_byte : ℕ → Bool
is_digit_byte c = leb b'0' c && leb c b'9'

unfoldable pub all_digits : Bytes → Bool
all_digits [] = true
all_digits (c ∷ s) = is_digit_byte c && all_digits s

-- the text from s[i] on
abbrev pub plain_digits : Bytes → Bool
plain_digits [] = false
plain_digits (c ∷ s) = if c == b'0' then is_empty s else all_digits (c ∷ s)

unfoldable pub is_plain_int : Bytes → Bool
unfolding all_digits
is_plain_int [] = false
is_plain_int (c ∷ s) = if c == b'-' then plain_digits s else plain_digits (c ∷ s)

-- digits behind a number read so far
unfoldable pub digits_value : ℕ → Bytes → ℕ
digits_value n [] = n
digits_value n (c ∷ s) = digits_value (10 * n + (c - b'0')) s

abbrev pub negated : ℕ → ℤ
negated zero = pos 0
negated (suc n) = negsuc n

-- strconv.ParseInt(s, 10, 64); `none` is an error
unfoldable pub parse_int : Bytes → Option ℤ
unfolding digits_value all_digits
parse_int [] = none
parse_int (c ∷ s) =
    let digits = if c == b'-' || c == b'+' then s else c ∷ s in
    let n = digits_value 0 digits in
    if is_empty digits || not (all_digits digits)
    then none
    else if c == b'-'
    then (if leb n (2 ^ 63) then some (negated n) else none)
    else if ltb n (2 ^ 63)
    then some (pos n)
    else none

abbrev pub contains_any : Bytes → List Bytes → Bool
contains_any k [] = false
contains_any k (frag ∷ frags) = contains_text k frag || contains_any k frags

abbrev pub secret_fragments : List Bytes
secret_fragments = codes "password" ∷ codes "token" ∷ codes "secret" ∷ codes "key" ∷ []

unfoldable pub is_protected_key : Bytes → Bool
unfolding to_lower has_suffix contains_text
is_protected_key key =
    let k = to_lower key in
    if str_eq k (codes "id") || (str_eq k (codes "host") || has_suffix k (codes "_id"))
    then true
    else contains_any k secret_fragments

abbrev pub number_or_text : Option ℤ → Bytes → Value
number_or_text none s = str s
number_or_text (some n) s = int n

unfoldable pub coerce_scalar : Bytes → Bytes → Value
coerce_scalar key s =
    if str_eq (to_lower s) (codes "true")
    then boolean true
    else if str_eq (to_lower s) (codes "false")
    then boolean false
    else if is_protected_key key
    then str s
    else if is_plain_int s
    then number_or_text (parse_int s) s
    else str s

abbrev pub texts : List Bytes → Items
texts [] = nil
texts (s ∷ ss) = cons (str s) (texts ss)

unfoldable pub coerce_text : Bytes → Bytes → List Bytes → Value
coerce_text k s path = if is_array_field path then arr (texts (split_csv s)) else coerce_scalar k s

-- `coerce_entry` is the round of the map loop for one key.
unfoldable mutual
  pub coerce_node : Value → List Bytes → Value
  coerce_node (obj m) path = obj (coerce_fields m path)
  coerce_node (arr xs) path = arr (coerce_items xs path)
  coerce_node v path = v

  pub coerce_entry : Value → Bytes → List Bytes → Value
  coerce_entry (str s) k path = coerce_text k s path
  coerce_entry (obj m) k path = obj (coerce_fields m path)
  coerce_entry (arr xs) k path = arr (coerce_items xs path)
  coerce_entry v k path = v

  pub coerce_items : Items → List Bytes → Items
  coerce_items nil path = nil
  coerce_items (cons x xs) path = cons (coerce_node x path) (coerce_items xs path)

  pub coerce_fields : Fields → List Bytes → Fields
  coerce_fields end path = end
  coerce_fields (field k v m) path =
      field k (coerce_entry v k (path ++ k ∷ [])) (coerce_fields m path)

unfoldable pub coerce_tree : Value → Value
unfolding coerce_node
coerce_tree v = coerce_node v []
