-- ===== src/ClientMacro/Described.antt =====
-- crates/routing-macros/src/parse.rs: the descriptor that the generator is given for a handler.
use common_rust.Prelude.{
  true, Option, none, some, List, [], ◌∷◌, ◌++◌, list_eq, nat_eq, map, ◌≡◌, ◌≢◌, ◌↔◌, All,
}
use common_rust.Prelude.Result.{ok}
use common_rust.Prelude.Text.{Text}
use common_rust.Macros.{ItemFn}
use common_rust.Routing.Export as Export
use common_rust.Routing.Export.{Handler, Field}
use common_rust.Routing.Arg as Arg
use common_rust.ClientMacro.Template.{Attr, declared_params}
use common_rust.ClientMacro.Declared.{AreParams}
use common_rust.ClientMacro.Declares.{Declares}
use common_rust.ClientMacro.Signature as Signature
use common_rust.ClientMacro.Signature.{
  Kind, classify, classify_as, with_arg, is_among, path_names, query_names, body_names,
  multipart_names, last_segment, last_elem,
}
use common_rust.ClientMacro.Expand as Expand
use common_rust.ClientMacro.Expand.{field_of, is_path}
use common_rust.ClientMacro.Typed.{NotPath, Typed}

-- The path arguments of the descriptor: those of the signature, or the one that the template declares.
abbrev pub PathOf : Option Text → List Export.Arg → Type 0
PathOf none args = Unit
PathOf (some template) args =
    (rest : List Export.Arg) × (params : List (Text × Text)) × (args
      ≡ rest ++ Arg.declared_path template (map field_of params) ∷ [])
    × All NotPath rest
    × (params ≢ [])
    × Declares template params
    × AreParams params

pub record IsDescribed (a : Attr) (item : ItemFn) (h : Handler) : Type 0 where
  pub name : h.name ≡ item.name
  pub path : PathOf a.path h.args
  pub is_link : (h.response ≡ Export.link) ↔ (a.link ≡ true)

-- The template of an attribute that is accepted declares something.
abbrev pub DeclaresParams : Option Text → Type 0
DeclaresParams none = Unit
DeclaresParams (some template) =
    (params : List (Text × Text)) × (declared_params template ≡ ok params) × (params ≢ [])
