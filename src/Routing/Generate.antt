-- ===== src/Routing/Generate.antt =====
-- crates/routing/src/generate.rs: what a handler and its route become in TypeScript. The detail of
-- an error is a data type instead of its words; the properties of characters that Unicode's tables
-- give are a record.
pub mod Keywords
pub mod Params
pub mod Urls
use common_rust.Prelude.{
  ℕ, Bool, true, false, not, ◌&&◌, ◌||◌, Option, none, some, List, [], ◌∷◌, ◌++◌, ◌==◌, nat_eq,
  list_eq, if◌then◌else◌, keep, any, find, length, map,
}
use common_rust.Prelude.Tests.{ltb}
use common_rust.Prelude.Result.{Result, ok, err, ◌>>=◌, ◌>>◌}
use common_rust.Prelude.Text.{
  Text, codes, is_empty, strip_prefix, strip_suffix, starts_with, split, join, trim_start_matches,
}
use common_rust.Prelude.Sort.{text_lt}
use common_rust.Routing.Manifest.{Registration, braced, is_star}
use common_rust.Routing.Export.{Kind, Field, Arg, Response, Handler}

pub data Detail : Type 0 where
  two_paths : Detail
  no_path : Text → List Text → Detail
  not_a_field : Text → Text → Text → Detail
  other_count : Text → List Text → Text → ℕ → Detail
  unusable : Text → Detail
  two_payloads : Detail

pub data Error : Type 0 where
  io : Text → Error
  json : Text → Error
  handler_without_route : Text → Error
  route_without_handler : Text → Text → Text → Error
  handler_mounted_twice : Text → Error
  shape : Text → Detail → Error
  name_clash : Text → Text → Text → Error

pub record Options : Type 0 where
  pub transport : Text
  pub types : Text
  pub include : Registration → Bool

abbrev pub default : Options
default = record {
  transport = codes "./client-call";
  types = codes "./index";
  include = λ reg. true;
}

pub record Unicode : Type 0 where
  pub to_uppercase : ℕ → Text
  pub is_alphanumeric : ℕ → Bool
  pub is_uppercase : ℕ → Bool

-- The loop of `camel`, with its flag.
unfoldable pub camel_from : Unicode → Bool → Text → Text
camel_from u upper [] = []
camel_from u upper (c ∷ s) =
    let after_mark = camel_from u true s in
    let plain = camel_from u false s in
    if c == b'_' then after_mark else if upper then u.to_uppercase c ++ plain else c ∷ plain

unfoldable pub camel : Unicode → Text → Text
unfolding camel_from
camel u snake = camel_from u false snake

-- `BTreeSet::insert`
unfoldable pub set_insert : Text → List Text → List Text
unfolding text_lt
set_insert t [] = t ∷ []
set_insert t (u ∷ us) =
    if t == u then u ∷ us else if text_lt t u then t ∷ (u ∷ us) else u ∷ set_insert t us

abbrev builtin : List Text
builtin =
    codes "Array"
    ∷ codes "Record"
    ∷ codes "Partial"
    ∷ codes "Map"
    ∷ codes "Set"
    ∷ codes "Promise"
    ∷ codes "Date"
    ∷ []

abbrev pub is_one_of : List Text → Text → Bool
is_one_of texts t = any (λ r. r == t) texts

abbrev starts_upper : Unicode → Text → Bool
starts_upper u [] = false
starts_upper u (c ∷ s) = u.is_uppercase c

abbrev flushed : Unicode → Text → List Text → List Text
flushed u cur into =
    if starts_upper u cur && not (is_one_of builtin cur) then set_insert cur into else into

unfoldable pub named_from : Unicode → Text → Text → List Text → List Text
unfolding set_insert any
named_from u cur [] into = into
named_from u cur (c ∷ s) into =
    let longer = named_from u (cur ++ c ∷ []) s into in
    let ended = named_from u [] s (flushed u cur into) in
    if u.is_alphanumeric c || (c == b'_') then longer else ended

unfoldable pub named_types : Unicode → Text → List Text → List Text
unfolding named_from
named_types u ts into = named_from u [] (ts ++ b' ' ∷ []) into

abbrev words : Text → List Text
words s = split b' ' s

unfoldable pub reserved : List Text
unfolding split
reserved = words (
    codes "break case catch class const continue debugger default delete do else enum export "
    ++ (codes "extends false finally for function if import in instanceof new null return "
        ++ (codes "super switch this throw true try typeof var void while with yield let "
            ++ (codes "static implements interface package private protected public await "
                ++ codes "query body"))))

-- `Fn_`
pub record Fn : Type 0 where
  pub name : Text
  pub params : List (Text × Text)
  pub url : Text
  pub method : Text
  pub has_query : Bool
  pub has_body : Bool
  pub response : Response
  pub fqname : Text
  pub path : Text

abbrev pub is_path_kind : Kind → Bool
is_path_kind Kind.path = true
is_path_kind _ = false

abbrev pub is_query_kind : Kind → Bool
is_query_kind Kind.query = true
is_query_kind _ = false

abbrev pub is_body_kind : Kind → Bool
is_body_kind Kind.body = true
is_body_kind Kind.multipart = true
is_body_kind _ = false

abbrev pub args_of : (Kind → Bool) → Handler → List Arg
args_of is h = keep (λ (a : Arg). is a.kind) h.args

unfoldable pub zip : List Text → List Text → List (Text × Text)
zip (p ∷ ps) (t ∷ ts) = (p, t) ∷ zip ps ts
zip [] ts = []
zip (p ∷ ps) [] = []

abbrev types_of : Arg → Option (List Text) → List Text
types_of arg none = arg.ts_type ∷ []
types_of arg (some positions) = positions

abbrev pub payload : Text → List Arg → List (Text × Text)
payload name [] = []
payload name (arg ∷ args) = (name, arg.ts_type) ∷ []

abbrev pub is_template_inner : Option Text → Bool
is_template_inner none = false
is_template_inner (some inner) = not (starts_with (codes "{") inner)

abbrev pub templated : Option Text → Text → Text
templated none seg = seg
templated (some inner) seg =
    if starts_with (codes "{") inner
    then seg
    else codes "${enc(" ++ (trim_start_matches is_star inner ++ codes ")}")

unfoldable pub url_of : Text → Text
unfolding braced split join starts_with trim_start_matches any
url_of path =
    let segs = split b'/' path in
    let url = join (codes "/") (map (λ seg. templated (braced seg) seg) segs) in
    let mark = if any (λ seg. is_template_inner (braced seg)) segs then b'`' else b'"' in
    mark ∷ (url ++ mark ∷ [])

module _ (reg : Registration) (h : Handler) where
  abbrev pub refused : {A : Type 0} → Detail → Result Error A
  refused detail = err (shape h.fqname detail)

  abbrev pub typed_by : Arg → Text → Option Field → Result Error (Text × Text)
  typed_by arg p none = refused (not_a_field p reg.path arg.ts_type)
  typed_by arg p (some f) = ok (p, f.ts_type)

  unfoldable pub by_name : Arg → List Field → List Text → Result Error (List (Text × Text))
  unfolding find
  by_name arg fields [] = ok []
  by_name arg fields (p ∷ ps) = typed_by arg p (find (λ f. f.name == p) fields) >>= λ param.
      by_name arg fields ps >>= λ params. ok (param ∷ params)

  abbrev pub by_position : Arg → List Text → Result Error (List (Text × Text))
  by_position arg types =
      if length types == length reg.path_params
      then ok (zip reg.path_params types)
      else refused (other_count reg.path reg.path_params arg.ts_type (length types))

  abbrev pub of_arg : Arg → Option (List Field) → Result Error (List (Text × Text))
  of_arg arg none = by_position arg (types_of arg arg.positions)
  of_arg arg (some fields) = by_name arg fields reg.path_params

  abbrev pub path_params_of : List Arg → Result Error (List (Text × Text))
  path_params_of [] =
      if is_empty reg.path_params then ok [] else refused (no_path reg.path reg.path_params)
  path_params_of (arg ∷ []) = of_arg arg arg.fields
  path_params_of (arg ∷ (other ∷ args)) = refused two_paths

  -- the loop over the names of the params
  unfoldable pub check_names : List (Text × Text) → Result Error (Unit {0})
  unfolding reserved any
  check_names [] = ok tt
  check_names ((p, t) ∷ params) =
      let rest = check_names params in if is_one_of reserved p then refused (unusable p) else rest

  abbrev pub function : Unicode → List (Text × Text) → List Arg → List Arg → Fn
  function u params query_args body_args = record {
    name = camel u h.name;
    params = params ++ (payload (codes "query") query_args ++ payload (codes "body") body_args);
    url = url_of reg.path;
    method = reg.method;
    has_query = not (is_empty query_args);
    has_body = not (is_empty body_args);
    response = h.response;
    fqname = h.fqname;
    path = reg.path;
  }

  -- what follows the params of the path
  abbrev pub with_payload : Unicode → List (Text × Text) → List Arg → List Arg → Result Error Fn
  with_payload u params query_args body_args =
      if ltb 1 (length query_args) || ltb 1 (length body_args)
      then refused two_payloads
      else ok (function u params query_args body_args)

  unfoldable pub plan : Unicode → Result Error Fn
  unfolding by_name check_names camel url_of keep zip
  plan u = do
    params ← path_params_of (args_of is_path_kind h)
    check_names params
    with_payload u params (args_of is_query_kind h) (args_of is_body_kind h)
