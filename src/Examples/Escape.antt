-- ===== src/Examples/Escape.antt =====
-- Escaping: runs, and the results at an input.
use gobackup_docker.Render.Escape.Rounds.Ends.{escape_by_index_lem}
use gobackup_docker.Render.Escape.Rounds.{slice, round, byte_at, rounds, escape_by_index}
use gobackup_docker.Render.Model.{placeholder, cred_var_name}
use gobackup_docker.Render.Model.Placeholder.{expand-placeholder}
use gobackup_docker.Render.Escape.Config.{escape_config, bare_dollar_paths}
use gobackup_docker.Render.Escape.Config.Leaves.{escape_config_lem, FieldsEscaped}
use gobackup_docker.Tree.{end, boolean, str, field, Fields}
use gobackup_docker.Base.{
  some, length, suc, ◌⊎◌, is_empty, not, str_eq, if◌then◌else◌, true, [], ◌∷◌, Bytes, codes, refl,
  ◌≡◌,
}
use gobackup_docker.Render.Escape.{
  is_letter, name_run, is_name_byte, is_letter, escape_bare_dollars, has_bare_dollar,
  ref_prefix_len, name_run, is_name_byte, dollar_sentinel_var, dollar_sentinel_value,
}
use gobackup_docker.Render.Escape.Expand.{expand, shell_name, take_name, to_brace}
use gobackup_docker.Render.Escape.Literal.{Means, expand-escape}

-- an environment with the sentinel and one variable
abbrev env : Bytes → Bytes
env n = if str_eq n dollar_sentinel_var then dollar_sentinel_value else codes "v"

escape_password :
    escape_bare_dollars (codes "m9qq!$7v!s^$!UU") ≡ codes "m9qq!${GB_DOLLAR}7v!s^${GB_DOLLAR}!UU"
unfolding escape_bare_dollars ref_prefix_len name_run is_name_byte
escape_password = refl

expand_corrupts : expand (λ n. []) (codes "m9qq!$7v!s^$!UU") ≡ codes "m9qq!v!s^UU"
unfolding expand shell_name take_name is_name_byte to_brace
expand_corrupts = refl

expand-escape_example :
    Means env (codes "a$b$HOME$") (expand env (escape_bare_dollars (codes "a$b$HOME$")))
unfolding str_eq
expand-escape_example = expand-escape env (codes "a$b$HOME$") refl

abbrev document : Fields
document = field (codes "pw") (str (codes "a$!")) (field (codes "n") (boolean true) end)

escape_config_example :
    FieldsEscaped (escape_config document).0
    × ((escape_config document).1 ≡ not (is_empty (bare_dollar_paths document)))
    × (((escape_config document).0 ≡ document) ⊎ ((escape_config document).1 ≡ true))
escape_config_example = escape_config_lem document

document_paths : bare_dollar_paths document ≡ codes "pw" ∷ []
unfolding bare_dollar_paths has_bare_dollar ref_prefix_len is_name_byte
document_paths = refl

expand-placeholder_example :
    expand env (
      escape_bare_dollars
        (placeholder (cred_var_name (codes "shop-h") (codes "databases" ∷ codes "db" ∷ []))))
    ≡ env (cred_var_name (codes "shop-h") (codes "databases" ∷ codes "db" ∷ []))
unfolding str_eq
expand-placeholder_example =
    expand-placeholder env (codes "shop-h") (codes "databases" ∷ codes "db" ∷ []) refl

escape_by_index_example :
    escape_by_index (suc (length (codes "a$${HOME}$"))) (codes "a$${HOME}$")
    ≡ some (escape_bare_dollars (codes "a$${HOME}$"))
escape_by_index_example = escape_by_index_lem (codes "a$${HOME}$")

escape_runs_by_index :
    escape_by_index 5 (codes "a$${HOME}$") ≡ some (codes "a${GB_DOLLAR}${HOME}${GB_DOLLAR}")
unfolding escape_by_index rounds byte_at round slice ref_prefix_len is_letter name_run is_name_byte
escape_runs_by_index = refl
