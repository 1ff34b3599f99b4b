-- ===== src/Render/Model/Placeholder.antt =====
-- The placeholder of a credential, read by the engine.
use gobackup_docker.Base.{
  ℕ, true, List, [], ◌∷◌, ◌++◌, map, append-nil, Bytes, codes, join, to_upper, if◌then◌else◌, ◌≡◌,
  refl, ◌∙◌, arith,
}
use gobackup_docker.Render.Escape.{
  is_letter, is_name_byte, dollar_sentinel_var, dollar_sentinel_value, escape_bare_dollars,
}
use gobackup_docker.Render.Escape.Expand.{expand}
use gobackup_docker.Render.Escape.Reference.{AreNames, IsVarName, Braced}
use gobackup_docker.Render.Escape.Literal.{done, braced, expand-escape-Means}
use gobackup_docker.Render.Model.{is_var_byte, sanitize_var, cred_var_name, placeholder}

-- what sanitizing makes of a byte
abbrev var_byte : ℕ → ℕ
var_byte c = if is_var_byte c then c else b'_'

var_byte_is_name : (c : ℕ) → is_name_byte (var_byte c) ≡ true
unfolding is_name_byte is_letter
var_byte_is_name c = ground arith

var_bytes-AreNames : (s : Bytes) → AreNames (map var_byte s)
var_bytes-AreNames [] = tt
var_bytes-AreNames (c ∷ s) = (var_byte_is_name c, var_bytes-AreNames s)

sanitize_var-AreNames : (s : Bytes) → AreNames (sanitize_var s)
unfolding sanitize_var
sanitize_var-AreNames s = var_bytes-AreNames (to_upper s)

append-AreNames : (s t : Bytes) → AreNames s → AreNames t → AreNames (s ++ t)
append-AreNames [] t h k = k
append-AreNames (c ∷ s) t h k = (h.0, append-AreNames s t h.1 k)

join-AreNames : (ps : List Bytes) → AreNames (join (map sanitize_var ps) (codes "_"))
unfolding join is_name_byte is_letter
join-AreNames [] = tt
join-AreNames (p ∷ []) = sanitize_var-AreNames p
join-AreNames (p ∷ q ∷ ps) =
    append-AreNames (sanitize_var p) _ (sanitize_var-AreNames p) (refl, join-AreNames (q ∷ ps))

cred_var_name-IsVarName : (model : Bytes) (path : List Bytes) → IsVarName (cred_var_name model path)
unfolding cred_var_name sanitize_var join is_name_byte is_letter to_upper
cred_var_name-IsVarName model path =
    (refl, (refl, (refl, join-AreNames (model ∷ path))), omega arith)

-- The placeholder written for a credential is left by the escaping as what the engine expands to the
-- value of the credential's variable, whatever the model's name and the path hold, where the sentinel
-- variable is set to "$".
pub expand-placeholder :
    (env : Bytes → Bytes) (model : Bytes) (path : List Bytes)
    → env dollar_sentinel_var ≡ dollar_sentinel_value
    → expand env (escape_bare_dollars (placeholder (cred_var_name model path)))
      ≡ env (cred_var_name model path)
expand-placeholder env model path h =
    let v = cred_var_name model path in
    let r : Braced (b'{' ∷ (v ++ codes "}")) = record {
      name = v;
      rest = [];
      splits = refl;
      is_var = cred_var_name-IsVarName model path;
    } in
    expand-escape-Means env (placeholder v) (env v ++ []) h (braced r done) ∙ append-nil (env v)
