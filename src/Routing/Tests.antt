-- ===== src/Routing/Tests.antt =====
-- A router of numbers, two handlers and their routes, and the theorems on crates/routing
-- applied to them.
mod Codec
use common_rust.Prelude.{
  ℕ, suc, Bool, true, false, none, some, List, [], ◌∷◌, ◌++◌, ◌+◌, ◌==◌, nat_eq, list_eq, list_beq,
  if◌then◌else◌, keep, any, find, map, length, ◌≡◌, ◌≢◌, refl, sym, arith, inl, inr, All, Elem, ◌↔◌,
}
use mathlib.Core.List.{Memᴰ, Permᴰ}
use common_rust.Prelude.Result.{ok}
use common_rust.Prelude.Dict.{or_else}
use common_rust.Prelude.Text.{Text, codes, split, ends_with_char, trim, starts_with, is_some, join}
use common_rust.Prelude.Sort.Keyed.{Distinct, Ascends}
use common_rust.Routing.Manifest.{Registration, parse_path_params, path_param, braced}
use common_rust.Routing.Router.{Axum, Router, Handler, new, get, nest, merge, static_dir, base_of}
use common_rust.Routing.Router.Mounted.{AllMounted}
use common_rust.Routing.Router.Nested.{Built, IsParsed, manifest-IsParsed, nest-nest}
use common_rust.Routing.Assets.{CachePolicy, AssetSet}
use common_rust.Routing.Export as Export
use common_rust.Routing.Export.{Arg, Field, append_locked}
use common_rust.Routing.Export.Stored.{
  IsJson, Same, name_of, handler_at, append_all, append_all_order,
}
use common_rust.Routing.Generate.{Unicode, Options, default, Fn, plan, url_of, is_one_of, reserved}
use common_rust.Routing.Generate.Keywords.{keywords}
use common_rust.Routing.Generate.Params.{names, AreNames, plan-names, plan-Distinct}
use common_rust.Routing.Generate.Urls.{IsPlain, shown, url_of-path_param}
use common_rust.Routing.Render.{render, client_text}
use common_rust.Routing.Render.Client.{IsClient, render-IsClient}
use common_rust.Routing.Barrel as Barrel
use common_rust.Routing.Barrel.{Directory}
use common_rust.Routing.Barrel.AnyOrder.{render_any_order}
use common_rust.Routing.Tests.Codec.{sample_json, sample_json-IsJson}

-- A router of the web library is the number of its routes.
abbrev sample_axum : Axum ℕ ℕ ℕ ℕ ℕ
sample_axum = record {
  new = 0;
  method_router = λ method h. h;
  route = λ r path m. suc r;
  nest = λ r path s. r + s;
  merge = λ r s. r + s;
  layer = λ r l. r;
  route_layer = λ r l. r;
  with_state = λ r s. r;
  constant = λ response. 1;
  named = λ responses. 2;
  is_header = λ t. true;
}

abbrev show_task : Handler ℕ
show_task = record { type_name = codes "app::show_task"; handler = 7 }

abbrev tasks : Router ℕ
tasks = get sample_axum (new sample_axum) (codes "/{id}") show_task

nest-nest_example :
    ((regs : List Registration) × ((nest sample_axum tasks (codes "/api/") tasks).manifest
        ≡ tasks.manifest ++ regs)
      × AllMounted (codes "/api/") tasks.manifest regs)
    × ((nest sample_axum tasks
          (codes "/api/")
          (nest sample_axum (new sample_axum) (codes "/tasks") tasks)).manifest
        ≡ (nest sample_axum tasks (base_of (codes "/api/") ++ codes "/tasks") tasks).manifest)
nest-nest_example = nest-nest sample_axum tasks tasks (codes "/api/") (codes "/tasks")

abbrev id_arg : Arg
id_arg = record {
  name = codes "id";
  kind = Export.Kind.path;
  ts_type = codes "string";
  positions = none;
  fields = none;
}

abbrev query_arg : Arg
query_arg = record {
  name = codes "q";
  kind = Export.Kind.query;
  ts_type = codes "Page";
  positions = none;
  fields = none;
}

abbrev show : Export.Handler
show = record {
  fqname = codes "app::show_task";
  name = codes "show_task";
  args = id_arg ∷ query_arg ∷ [];
  response = Export.Response.json (codes "Task");
}

abbrev list : Export.Handler
list = record {
  fqname = codes "app::list_tasks";
  name = codes "list_tasks";
  args = [];
  response = Export.Response.json (codes "Task");
}

other_order : (h k l : Export.Handler) → Elem l (h ∷ (k ∷ [])) → Elem l (k ∷ (h ∷ []))
other_order h k l (Memᴰ.head e) = Memᴰ.tail (Memᴰ.head e)
other_order h k l (Memᴰ.tail (Memᴰ.head e)) = Memᴰ.head e
other_order h k l (Memᴰ.tail (Memᴰ.tail m)) = elim m [ ]

two_names : codes "app::show_task" ≢ codes "app::list_tasks"
two_names e = cc

two_Same : Same (show ∷ (list ∷ [])) (list ∷ (show ∷ []))
two_Same = record {
  distinct = ((two_names, tt), (tt, tt));
  distinct' = ((λ e. two_names (sym e), tt), (tt, tt));
  same = λ h. (other_order show list h, other_order list show h);
}

append_all_order_example :
    (out : List Export.Handler) × (append_all sample_json (show ∷ (list ∷ [])) []
      ≡ ok (sample_json-IsJson.pretty out ++ b'\n' ∷ []))
    × (append_all sample_json (list ∷ (show ∷ [])) []
        ≡ ok (sample_json-IsJson.pretty out ++ b'\n' ∷ []))
    × Ascends name_of out
    × ((j : Text)
        → handler_at j out ≡ or_else (handler_at j (show ∷ (list ∷ []))) (handler_at j []))
unfolding trim
append_all_order_example =
    append_all_order sample_json sample_json-IsJson show (list ∷ []) (list ∷ (show ∷ [])) [] [] refl
      tt two_Same

-- Characters of ASCII.
abbrev ascii : Unicode
ascii = record {
  to_uppercase = λ c. (c + 0) ∷ [];
  is_alphanumeric = λ c. true;
  is_uppercase = λ c. false;
}

abbrev show_route : Registration
show_route = record {
  fqname = codes "app::show_task";
  method = codes "GET";
  path = codes "/tasks/{id}";
  path_params = codes "id" ∷ [];
}

abbrev show_fn : Fn
show_fn = record {
  name = codes "showtask";
  params = (codes "id", codes "string") ∷ (codes "query", codes "Page") ∷ [];
  url = codes "`/tasks/${enc(id)}`";
  method = codes "GET";
  has_query = true;
  has_body = false;
  response = Export.Response.json (codes "Task");
  fqname = codes "app::show_task";
  path = codes "/tasks/{id}";
}

show_planned : plan show_route show ascii ≡ ok show_fn
unfolding plan list_beq
show_planned = refl

plan-names_example :
    AreNames show_route show (names show_fn.params) × All (λ p. ¬ Elem p keywords) (codes "id" ∷ [])
plan-names_example = plan-names show_route show ascii show_fn show_planned

abbrev show_text : Text
show_text = client_text ascii default (show_fn ∷ [])

show_rendered : render ascii (show_route ∷ []) (show ∷ []) default ≡ ok (show_text, 1)
unfolding render plan list_beq
show_rendered = refl

render-IsClient_example :
    (fns : List Fn) × IsClient ascii (show_route ∷ []) (show ∷ []) default fns
    × (show_text ≡ client_text ascii default fns)
    × (◌≡◌ {A = ℕ} 1 (length (show ∷ [])))
render-IsClient_example =
    render-IsClient ascii (show_route ∷ []) (show ∷ []) default show_text 1 show_rendered
