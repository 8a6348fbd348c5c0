-- ===== src/ClientMacro/Expand.antt =====
-- crates/routing-macros/src/parse.rs: the test that `#[client]` adds to a handler, and the descriptor
-- that the test writes. The path of the module and the TypeScript forms of types are parameters.
use common_rust.Prelude.{
  Bool, true, false, Option, none, some, List, [], ◌∷◌, ◌++◌, list_eq, nat_eq, if◌then◌else◌, any,
  map,
}
use common_rust.Prelude.Result.{Result, ok, err, ◌>>=◌}
use common_rust.Prelude.Text.{Text, codes}
use common_rust.Macros.{Ty, Meta, MacroError, refused, ItemFn}
use common_rust.Routing.Export as Export
use common_rust.Routing.Export.{Handler, Field}
use common_rust.Routing.Arg as Arg
use common_rust.Routing.Arg.{Ts}
use common_rust.ClientMacro.Template.{declared_params, parse_attr}
use common_rust.ClientMacro.Signature as Signature
use common_rust.ClientMacro.Signature.{Kind, Descriptor, describe}

-- A call of `export::Arg`; a type argument that is missing does not compile.
pub data Call : Type 0 where
  path query body : Option Ty → Text → Call
  multipart : Text → Call
  declared_path : Text → List (Text × Text) → Call

-- `export_client_…`, as the handler's own name and the descriptor's parts.
pub record ExportTest : Type 0 where
  pub name : Text
  pub handler : Text
  pub args : List Call
  pub response : Signature.Response

abbrev pub call_as : Kind → Option Ty → Text → Call
call_as Kind.path ty name = path ty name
call_as Kind.query ty name = query ty name
call_as Kind.body ty name = body ty name
call_as Kind.multipart ty name = multipart name

abbrev pub call_of : Signature.Arg → Call
call_of a = call_as a.kind a.ty a.name

abbrev pub is_path : Kind → Bool
is_path Kind.path = true
is_path Kind.query = false
is_path Kind.body = false
is_path Kind.multipart = false

abbrev pub takes_path : List Signature.Arg → Bool
takes_path args = any (λ a. is_path a.kind) args

abbrev two_sources : Text → Text → MacroError
two_sources template name = refused (
    codes "#[client(path = \""
    ++ (template
        ++ (codes "\")] on `"
            ++ (name
                ++ (codes
                      "`, which already takes a Path<T> — the declaration is for a handler whose params "
                    ++ codes
                        "are read inside a guard, so drop whichever of the two is redundant")))))

abbrev pub check_sources : Option Text → Descriptor → Result MacroError (Unit {0})
check_sources none d = ok tt
check_sources (some template) d =
    if takes_path d.args then err (two_sources template d.name) else ok tt

abbrev pub declared_call : Option Text → Result MacroError (List Call)
declared_call none = ok []
declared_call (some template) =
    declared_params template >>= λ params. ok (declared_path template params ∷ [])

unfoldable pub expand : (Ty → Text) → Option (List Meta) → ItemFn → Result MacroError ExportTest
unfolding parse_attr describe declared_params any
expand quoted metas item = do
  attr ← parse_attr metas
  d ← describe quoted item attr.link
  _ ← check_sources attr.path d
  more ← declared_call attr.path
  ok (record {
    name = codes "export_client_" ++ d.name;
    handler = d.name;
    args = map call_of d.args ++ more;
    response = d.response;
  })

abbrev pub field_of : Text × Text → Field
field_of (name, ts_type) = record { name = name; ts_type = ts_type }

module _ (ts : Ty → Ts) where
  abbrev typed_call : (Ts → Export.Arg) → Option Ty → Option Export.Arg
  typed_call f none = none
  typed_call f (some ty) = some (f (ts ty))

  abbrev pub arg_of : Call → Option Export.Arg
  arg_of (path ty name) = typed_call (Arg.path name) ty
  arg_of (query ty name) = typed_call (Arg.query name) ty
  arg_of (body ty name) = typed_call (Arg.body name) ty
  arg_of (multipart name) = some (Arg.multipart name)
  arg_of (declared_path template params) = some (Arg.declared_path template (map field_of params))

  abbrev both : Option Export.Arg → Option (List Export.Arg) → Option (List Export.Arg)
  both none args = none
  both (some a) none = none
  both (some a) (some args) = some (a ∷ args)

  unfoldable pub args_of : List Call → Option (List Export.Arg)
  unfolding Arg.path
  args_of [] = some []
  args_of (c ∷ cs) = both (arg_of c) (args_of cs)

  abbrev pub response_of : Signature.Response → Export.Response
  response_of (Signature.json ty) = Export.json (ts ty).name
  response_of Signature.no_content = Export.no_content
  response_of Signature.link = Export.link

  abbrev handler_with : Text → ExportTest → Option (List Export.Arg) → Option Handler
  handler_with module_path t none = none
  handler_with module_path t (some args) = some (record {
    fqname = module_path ++ (codes "::" ++ t.handler);
    name = t.handler;
    args = args;
    response = response_of t.response;
  })

  -- The descriptor that the test appends.
  unfoldable pub handler_of : Text → ExportTest → Option Handler
  unfolding args_of
  handler_of module_path t = handler_with module_path t (args_of t.args)
