-- ===== src/Routing/Render.antt =====
-- crates/routing/src/generate.rs: the join of the routes and the handlers, and the text of the
-- TypeScript client. JSON and the files are functions in a record.
pub mod Joined
pub mod Client
use common_rust.Prelude.{
  ℕ, Bool, true, false, not, ◌&&◌, ◌||◌, Option, none, some, List, [], ◌∷◌, ◌++◌, ◌==◌, nat_eq,
  list_eq, if◌then◌else◌, keep, any, length, map,
}
use common_rust.Prelude.Result.{Result, ok, err, ◌>>=◌, ◌>>◌}
use common_rust.Prelude.Dict
use common_rust.Prelude.Dict.{Dict, empty}
use common_rust.Prelude.Text.{Text, codes, is_empty, is_some, join}
use common_rust.Prelude.Sort.{sort_by, text_lt}
use common_rust.Routing.Manifest.{Registration, text_pair_lt}
use common_rust.Routing.Export.{Response, Handler}
use common_rust.Routing.Generate.{
  Error, io, json, handler_without_route, route_without_handler, handler_mounted_twice, name_clash,
  Options, default, Unicode, Fn, named_types, plan,
}

-- the loop over the routes
unfoldable pub mounts :
    List Registration → Dict Text Registration → Result Error (Dict Text Registration)
mounts [] by_fqname = ok by_fqname
mounts (r ∷ routes) by_fqname =
    let rest = mounts routes (Dict.insert r.fqname r by_fqname) in
    if is_some (by_fqname r.fqname) then err (handler_mounted_twice r.fqname) else rest

abbrev pub is_described : List Handler → Text → Bool
is_described handlers fqname = any (λ (h : Handler). h.fqname == fqname) handlers

-- the loop over the routes that are included
unfoldable pub check_described :
    (Registration → Bool) → List Handler → List Registration → Result Error (Unit {0})
unfolding any
check_described include handlers [] = ok tt
check_described include handlers (r ∷ routes) =
    let rest = check_described include handlers routes in
    if include r && not (is_described handlers r.fqname)
    then err (route_without_handler r.method r.path r.fqname)
    else rest

abbrev pub planned : Unicode → Handler → Option Registration → Result Error Fn
planned u h none = err (handler_without_route h.fqname)
planned u h (some reg) = plan reg h u

-- the loop over the handlers
unfoldable pub plans : Unicode → Dict Text Registration → List Handler → Result Error (List Fn)
plans u by_fqname [] = ok []
plans u by_fqname (h ∷ handlers) =
    planned u h (by_fqname h.fqname) >>= λ f. plans u by_fqname handlers >>= λ fns. ok (f ∷ fns)

abbrev pub fn_before : Fn → Fn → Bool
fn_before a b = text_pair_lt a.path a.method b.path b.method

abbrev name_as : Response → Text → Text
name_as Response.link name = name ++ codes "Url"
name_as _ name = name

abbrev pub ts_name : Fn → Text
ts_name f = name_as f.response f.name

abbrev pub clash : Fn → Option Text → Result Error (Unit {0}) → Result Error (Unit {0})
clash f none rest = rest
clash f (some prev) rest = err (name_clash prev f.fqname (ts_name f))

-- the loop over the functions
unfoldable pub check_names : List Fn → Dict Text Text → Result Error (Unit {0})
check_names [] seen = ok tt
check_names (f ∷ fns) seen =
    clash f (seen (ts_name f)) (check_names fns (Dict.insert (ts_name f) f.fqname seen))

unfoldable pub types_of_params : Unicode → List (Text × Text) → List Text → List Text
unfolding named_types
types_of_params u [] into = into
types_of_params u ((_, t) ∷ params) into = types_of_params u params (named_types u t into)

abbrev types_of_response : Unicode → Response → List Text → List Text
types_of_response u (Response.json t) into = named_types u t into
types_of_response u Response.no_content into = into
types_of_response u Response.link into = into

unfoldable pub types_of : Unicode → List Fn → List Text → List Text
unfolding types_of_params
types_of u [] into = into
types_of u (f ∷ fns) into =
    types_of u fns (types_of_response u f.response (types_of_params u f.params into))

unfoldable pub imports_of : Unicode → List Fn → List Text
unfolding types_of keep
imports_of u fns = keep (λ t. not (t == codes "FormData")) (types_of u fns [])

unfoldable pub import_lines : List Text → Text
import_lines [] = []
import_lines (t ∷ imports) = codes "  " ++ (t ++ (codes ",\n" ++ import_lines imports))

abbrev imports_text : List Text → Text → Text
imports_text [] types = []
imports_text (t ∷ imports) types =
    codes "import type {\n"
    ++ (import_lines (t ∷ imports) ++ (codes "} from \"" ++ (types ++ codes "\";\n")))

abbrev pub signature : Fn → Text
signature f = join (codes ", ") (map (λ (p : Text × Text). p.0 ++ (codes ": " ++ p.1)) f.params)

abbrev quoted : Text → Text
quoted t = codes "\"" ++ (t ++ codes "\"")

abbrev call_args : Fn → List Text
call_args f =
    quoted f.method
    ∷ (f.url
        ∷ ((if f.has_query || f.has_body
              then (if f.has_query then codes "query" else codes "undefined") ∷ []
              else [])
            ++ (if f.has_body then codes "body" ∷ [] else [])))

abbrev call_text : Fn → Text → Text
call_text f ret =
    codes "export function "
    ++ (f.name
        ++ (codes "("
            ++ (signature f
                ++ (codes "): Promise<"
                    ++ (ret
                        ++ (codes "> {\n  return call<"
                            ++ (ret
                                ++ (codes ">("
                                    ++ (join (codes ", ") (call_args f) ++ codes ");\n}\n")))))))))

abbrev function_as : Fn → Response → Text
function_as f Response.link =
    codes "export function "
    ++ (f.name
        ++ (codes "Url("
            ++ (signature f ++ (codes "): string {\n  return " ++ (f.url ++ codes ";\n}\n")))))
function_as f (Response.json t) = call_text f t
function_as f Response.no_content = call_text f (codes "void")

abbrev function_text : Fn → Text
function_text f =
    codes "\n/** "
    ++ (f.method
        ++ (codes " "
            ++ (f.path
                ++ (codes " — " ++ (f.fqname ++ (codes " */\n" ++ function_as f f.response))))))

unfoldable pub functions_text : List Fn → Text
unfolding join
functions_text [] = []
functions_text (f ∷ fns) = function_text f ++ functions_text fns

unfoldable pub client_text : Unicode → Options → List Fn → Text
unfolding imports_of import_lines functions_text
client_text u opts fns =
    codes "// Generated by common-routing from routes.json and handlers.json — do not edit.\n"
    ++ (codes "// One function per #[client] handler; the path template lives in Rust only.\n"
        ++ (codes "import { call } from \""
            ++ (opts.transport
                ++ (codes "\";\n"
                    ++ (imports_text (imports_of u fns) opts.types
                        ++ (codes
                              "\nconst enc = (v: string | number | boolean) => encodeURIComponent(String(v));\n"
                            ++ functions_text fns))))))

-- The functions of the client, in their order.
unfoldable pub joined :
    Unicode → List Registration → List Handler → Options → Result Error (List Fn)
unfolding mounts check_described plans sort_by check_names text_lt
joined u routes handlers opts = do
  by_fqname ← mounts routes empty
  check_described opts.include handlers routes
  fns ← plans u by_fqname handlers
  check_names (sort_by fn_before fns) empty
  ok (sort_by fn_before fns)

unfoldable pub render :
    Unicode → List Registration → List Handler → Options → Result Error (Text × ℕ)
unfolding joined client_text
render u routes handlers opts = do
  fns ← joined u routes handlers opts
  ok (client_text u opts fns, length fns)

pub record Files (W : Type 0) : Type 0 where
  pub read_to_string : Text → W → Result Text Text
  pub write : Text → Text → W → Result Text W
  pub parse_routes : Text → Result Text (List Registration)
  pub parse_handlers : Text → Result Text (List Handler)

abbrev map_err {ℓ} : {A : Type ℓ} → (Text → Error) → Result Text A → Result Error A
map_err f (ok a) = ok a
map_err f (err e) = err (f e)

-- `Options::generate`; `export::read` gives the error of JSON as one of I/O.
unfoldable pub generate :
    {W : Type 0} → Unicode → Files W → Options → Text → Text → Text → W → Result Error (ℕ × W)
unfolding render
generate u files opts routes_json handlers_json out_ts w = do
  routes_text ← map_err io (files.read_to_string routes_json w)
  routes ← map_err json (files.parse_routes routes_text)
  handlers_text ← map_err io (files.read_to_string handlers_json w)
  handlers ← map_err io (files.parse_handlers handlers_text)
  out ← render u routes handlers opts
  w' ← map_err io (files.write out_ts out.0 w)
  ok (out.1, w')

abbrev pub generate_client :
    {W : Type 0} → Unicode → Files W → Text → Text → Text → W → Result Error (ℕ × W)
generate_client u files = generate u files default
