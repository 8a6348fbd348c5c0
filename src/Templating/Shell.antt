-- ===== src/Templating/Shell.antt =====
-- crates/templating/src/render.rs: a shell stamped with the asset origin and the configuration. The
-- template engine and the JSON of a configuration are functions in a record.
pub mod Block
use common_rust.Prelude.{ℕ, List, [], ◌∷◌, ◌++◌, ◌==◌, nat_eq, if◌then◌else◌}
use common_rust.Prelude.Result.{Result, ok, err, ◌>>=◌}
use common_rust.Prelude.Text.{Text, codes}
use common_rust.Templating.Origin.{AssetsOrigin}

pub data RenderError : Type 0 where
  bad_dir : Text → RenderError
  missing : Text → RenderError
  parse : Text → Text → RenderError
  pin_mismatch : Text → RenderError
  io : Text → Text → RenderError
  render : Text → Text → RenderError
  unsafe_name : Text → RenderError

abbrev pub shell_name : Text
shell_name = codes "shell"

-- `s.replace(c, r)`
unfoldable pub replace_with : ℕ → Text → Text → Text
replace_with c r [] = []
replace_with c r (d ∷ s) = if d == c then r ++ replace_with c r s else d ∷ replace_with c r s

unfoldable pub escape_block : Text → Text
unfolding replace_with
escape_block json =
    replace_with b'&' (codes "\\u0026")
      (replace_with b'>' (codes "\\u003e") (replace_with b'<' (codes "\\u003c") json))

pub record Engine (T C : Type 0) : Type 0 where
  pub compile : Text → Result Text T
  pub render_to_string : T → Text → Text → Result Text Text
  pub to_json : C → Result Text Text

abbrev map_err {ℓ} : {A : Type ℓ} → (Text → RenderError) → Result Text A → Result RenderError A
map_err f (ok a) = ok a
map_err f (err e) = err (f e)

module _ {T C : Type 0} (engine : Engine T C) where
  unfoldable pub json_for_script_block : C → Result RenderError Text
  unfolding escape_block
  json_for_script_block config = do
    json ← map_err (λ e. render shell_name (codes "config: " ++ e)) (engine.to_json config)
    ok (escape_block json)

  unfoldable pub compile : Text → Result RenderError T
  compile shell = map_err (parse shell_name) (engine.compile shell)

  -- `Shell::render`, with the origin as it is and the block in the place of the configuration
  unfoldable pub render_shell : T → AssetsOrigin → C → Result RenderError Text
  unfolding json_for_script_block
  render_shell template origin config = do
    block ← json_for_script_block config
    map_err (render shell_name) (engine.render_to_string template origin.as_str block)
