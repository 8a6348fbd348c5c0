-- ===== src/ClientMacro/Tests.antt =====
-- A handler behind a guard, its template, and the theorems on `#[client]` applied to them.
use common_rust.Prelude.{
  true, false, Option, some, List, [], ◌∷◌, list_eq, nat_eq, list_beq, ◌≡◌, ◌≢◌, refl, arith,
}
use common_rust.Prelude.Result.{ok, err}
use common_rust.Prelude.Text.{Text, codes}
use common_rust.Macros.{
  Ty, Segments, Arguments, Generics, Meta, literal, unfinished, Pat, typed, ItemFn,
}
use common_rust.Routing.Arg.{Ts}
use common_rust.ClientMacro.Template.{params_from, declared_params}
use common_rust.ClientMacro.Termination.{params_from-declared_params}
use common_rust.ClientMacro.Declared.{AreParams, declared_params-AreParams}
use common_rust.ClientMacro.Signature as Signature
use common_rust.ClientMacro.Expand.{ExportTest, Call}

abbrev template : Text
template = codes "/api/groups/{name}/members/{id: number}"

abbrev params : List (Text × Text)
params = (codes "name", codes "string") ∷ (codes "id", codes "number") ∷ []

sample_declared : declared_params template ≡ ok params
unfolding declared_params list_beq
sample_declared = refl

unclosed_declared : declared_params (codes "/a/{x") ≢ ok []
unfolding declared_params list_beq
unclosed_declared e = cc

params_from-declared_params_example :
    (params_from 50 template template [] ≡ declared_params template)
    × (declared_params template ≢ err unfinished)
params_from-declared_params_example = params_from-declared_params template 50 (omega arith)

declared_params-AreParams_example : AreParams params
declared_params-AreParams_example = declared_params-AreParams template sample_declared

abbrev plain : Text → Ty
plain t = Ty.path false false (Segments.segment t Arguments.bare Segments.end)

abbrev wrapped : Text → Ty → Ty
wrapped t inner =
    Ty.path false false
      (Segments.segment t (Arguments.angle (Generics.ty_arg inner Generics.stop)) Segments.end)

abbrev metas : Option (List Meta)
metas = some (record { key = codes "path"; value = literal template } ∷ [])

abbrev member_item : ItemFn
member_item = record {
  name = codes "member";
  is_async = true;
  inputs =
      typed (Pat.ident (codes "_g")) (plain (codes "GroupAccess"))
      ∷ typed (Pat.ident (codes "body")) (wrapped (codes "Json") (plain (codes "Change")))
      ∷ [];
  output = some (wrapped (codes "Result") (wrapped (codes "Json") (plain (codes "Member"))));
}

abbrev member_test : ExportTest
member_test = record {
  name = codes "export_client_member";
  handler = codes "member";
  args =
      Call.body (some (plain (codes "Change"))) (codes "body")
      ∷ Call.declared_path template params
      ∷ [];
  response = Signature.json (plain (codes "Member"));
}

abbrev quoted : Ty → Text
quoted ty = codes "T"

abbrev ts : Ty → Ts
ts ty = record { name = codes "T"; inline = codes "{}" }
