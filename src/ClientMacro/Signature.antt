-- ===== src/ClientMacro/Signature.antt =====
-- crates/routing-macros/src/parse.rs: what the signature of a handler says of its arguments and of its
-- response. How a type is printed in an error is a parameter.
use common_rust.Prelude.{
  Bool, true, false, Option, none, some, List, [], ◌∷◌, ◌++◌, ◌==◌, list_eq, nat_eq, if◌then◌else◌,
  any,
}
use common_rust.Prelude.Result.{Result, ok, err, ◌>>=◌}
use common_rust.Prelude.Text.{Text, codes}
use common_rust.Macros.{
  Ty, Tys, Segments, Arguments, Generics, MacroError, refused, Pat, Pats, FnArg, receiver, typed,
  ItemFn,
}

pub data Kind : Type 0 where
  path query body multipart : Kind

pub record Arg : Type 0 where
  pub name : Text
  pub kind : Kind
  pub ty : Option Ty

pub data Response : Type 0 where
  json : Ty → Response
  no_content link : Response

pub record Descriptor : Type 0 where
  pub name : Text
  pub args : List Arg
  pub response : Response

abbrev pub path_names : List Text
path_names = codes "Path" ∷ codes "ApiPath" ∷ []

abbrev pub query_names : List Text
query_names = codes "Query" ∷ codes "ApiQuery" ∷ []

abbrev pub body_names : List Text
body_names = codes "Json" ∷ codes "ApiJson" ∷ []

abbrev pub multipart_names : List Text
multipart_names = codes "Multipart" ∷ []

abbrev pub is_among : List Text → Text → Bool
is_among names ident = any (λ n. n == ident) names

abbrev first_type : Generics → Option Ty
first_type Generics.stop = none
first_type (Generics.ty_arg t rest) = some t
first_type (Generics.other_arg rest) = first_type rest

abbrev type_arg : Arguments → Option Ty
type_arg Arguments.bare = none
type_arg Arguments.parenthesized = none
type_arg (Arguments.angle args) = first_type args

abbrev last_of : Segments → Option (Text × Option Ty)
last_of Segments.end = none
last_of (Segments.segment ident args Segments.end) = some (ident, type_arg args)
last_of (Segments.segment _ _ (Segments.segment ident args rest)) =
    last_of (Segments.segment ident args rest)

abbrev pub last_segment : Ty → Option (Text × Option Ty)
last_segment (Ty.path q leading segments) = last_of segments
last_segment (Ty.tuple ts) = none
last_segment (Ty.other t) = none

abbrev needs_payload : Text → MacroError
needs_payload ident = refused (
    codes "#[client]: `"
    ++ (ident ++ (codes "` needs its payload type argument (`" ++ (ident ++ codes "<T>`)"))))

abbrev with_payload : Kind → Text → Option Ty → Result MacroError (Option (Kind × Option Ty))
with_payload kind ident (some t) = ok (some (kind, some t))
with_payload kind ident none = err (needs_payload ident)

abbrev pub classify_as : Option (Text × Option Ty) → Result MacroError (Option (Kind × Option Ty))
classify_as none = ok none
classify_as (some (ident, inner)) =
    if is_among path_names ident
    then with_payload Kind.path ident inner
    else if is_among query_names ident
    then with_payload Kind.query ident inner
    else if is_among body_names ident
    then with_payload Kind.body ident inner
    else if is_among multipart_names ident
    then ok (some (Kind.multipart, none))
    else ok none

unfoldable pub classify : Ty → Result MacroError (Option (Kind × Option Ty))
unfolding any
classify ty = classify_as (last_segment ty)

abbrev kind_name : Kind → Text
kind_name Kind.path = codes "path"
kind_name Kind.query = codes "query"
kind_name Kind.body = codes "body"
kind_name Kind.multipart = codes "multipart"

abbrev ident_of : Pat → Option Text
ident_of (Pat.ident t) = some t
ident_of (Pat.tuple_struct (Pats.elem p Pats.end)) = ident_of p
ident_of (Pat.tuple_struct Pats.end) = none
ident_of (Pat.tuple_struct (Pats.elem p (Pats.elem q ps))) = none
ident_of (Pat.paren p) = ident_of p
ident_of Pat.other = none

abbrev name_or : Option Text → Kind → Text
name_or none kind = kind_name kind
name_or (some t) kind = t

abbrev pub pat_name : Pat → Kind → Text
pat_name pat kind = name_or (ident_of pat) kind

abbrev pub last_elem : Tys → Option Ty
last_elem Tys.nil = none
last_elem (Tys.cons t Tys.nil) = some t
last_elem (Tys.cons _ (Tys.cons t ts)) = last_elem (Tys.cons t ts)

abbrev on_handler : Text → Text → MacroError
on_handler name what = refused (codes "#[client] on `" ++ (name ++ (codes "`: " ++ what)))

module _ (quoted : Ty → Text) (name : Text) where
  abbrev opaque : Ty → MacroError
  opaque ty = on_handler name (
      codes "the return type `"
      ++ (quoted ty
          ++ (codes
                "` is opaque — return Json<T> (also as Result<Json<T>, _>, (StatusCode, Json<T>) or "
              ++ (codes
                    "ApiJson<T>), or StatusCode / () for no content; a handler the browser navigates "
                  ++ codes "to takes #[client(link)]"))))

  abbrev pub last_payload : Ty → Option (Text × Option Ty) → Result MacroError Response
  last_payload ty none = err (opaque ty)
  last_payload ty (some (ident, none)) = err (opaque ty)
  last_payload ty (some (ident, some inner)) =
      if is_among body_names ident then ok (json inner) else err (opaque ty)

  abbrev pub tuple_response : Ty → Option Ty → Result MacroError Response
  tuple_response ty none = ok no_content
  tuple_response ty (some last) = last_payload ty (last_segment last)

  -- The last segment comes with its type argument, and with what that type itself would give.
  abbrev pub path_response :
      Ty → Option (Text × Option (Ty × Result MacroError Response)) → Result MacroError Response
  path_response ty none = err (opaque ty)
  path_response ty (some (ident, some (inner, response))) =
      if ident == codes "Result"
      then response
      else if is_among body_names ident
      then ok (json inner)
      else err (opaque ty)
  path_response ty (some (ident, none)) =
      if ident == codes "StatusCode" then ok no_content else err (opaque ty)

  unfoldable mutual
    unfolding any

    pub response_of : Ty → Result MacroError Response
    response_of (Ty.tuple ts) = tuple_response (Ty.tuple ts) (last_elem ts)
    response_of (Ty.path q leading segments) =
        path_response (Ty.path q leading segments) (segments_response segments)
    response_of (Ty.other t) = err (opaque (Ty.other t))

    pub segments_response : Segments → Option (Text × Option (Ty × Result MacroError Response))
    segments_response Segments.end = none
    segments_response (Segments.segment ident args Segments.end) =
        some (ident, arguments_response args)
    segments_response (Segments.segment _ _ (Segments.segment ident args rest)) =
        segments_response (Segments.segment ident args rest)

    pub arguments_response : Arguments → Option (Ty × Result MacroError Response)
    arguments_response Arguments.bare = none
    arguments_response Arguments.parenthesized = none
    arguments_response (Arguments.angle args) = generics_response args

    pub generics_response : Generics → Option (Ty × Result MacroError Response)
    generics_response Generics.stop = none
    generics_response (Generics.ty_arg t rest) = some (t, response_of t)
    generics_response (Generics.other_arg rest) = generics_response rest

  abbrev pub response_as : Bool → Option Ty → Result MacroError Response
  response_as true output = ok link
  response_as false none = ok no_content
  response_as false (some ty) = response_of ty

abbrev pub with_arg : Pat → Option (Kind × Option Ty) → List Arg → List Arg
with_arg pat none args = args
with_arg pat (some (kind, ty)) args =
    (record { name = pat_name pat kind; kind = kind; ty = ty }) ∷ args

-- the loop over the inputs
unfoldable pub args_of : Text → List FnArg → Result MacroError (List Arg)
unfolding classify
args_of name [] = ok []
args_of name (receiver ∷ inputs) = err (on_handler name (codes "a handler has no `self`"))
args_of name (typed pat ty ∷ inputs) = do
  c ← classify ty
  args ← args_of name inputs
  ok (with_arg pat c args)

abbrev pub described : (Ty → Text) → ItemFn → Bool → Result MacroError Descriptor
described quoted item is_link = do
  args ← args_of item.name item.inputs
  response ← response_as quoted item.name is_link item.output
  ok (record { name = item.name; args = args; response = response })

unfoldable pub describe : (Ty → Text) → ItemFn → Bool → Result MacroError Descriptor
unfolding args_of response_of
describe quoted item is_link =
    if item.is_async
    then described quoted item is_link
    else err (on_handler item.name (codes "expected an `async fn` handler"))
