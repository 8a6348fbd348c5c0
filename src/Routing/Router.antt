-- ===== src/Routing/Router.antt =====
-- crates/routing/src/router.rs: a router that records its routes beside the one of the web library,
-- which is a record of functions over its routers, its method routers and its handlers.
pub mod Nested
pub mod Mounted
use common_rust.Prelude.{
  ℕ, Bool, Option, none, some, List, [], ◌∷◌, ◌++◌, ◌==◌, nat_eq, list_eq, if◌then◌else◌, map,
}
use common_rust.Prelude.Text.{Text, codes, trim_end_matches}
use common_rust.Templating.Cache.{Bytes}
use common_rust.Routing.Manifest.{Registration, parse_path_params}
use common_rust.Routing.Assets.{
  Response, CachePolicy, AssetSet, serve_static, not_found, safe_asset_path, content_type_for,
  get as asset_bytes,
}

-- `axum::Router`, its methods and `HeaderValue::from_str(v).is_ok()`; a handler of its own takes the
-- name that the path gives.
pub record Axum (R M H L S : Type 0) : Type 0 where
  pub new : R
  pub method_router : Text → H → M
  pub route : R → Text → M → R
  pub nest : R → Text → R → R
  pub merge : R → R → R
  pub layer : R → L → R
  pub route_layer : R → L → R
  pub with_state : R → S → R
  pub constant : Response → H
  pub named : (Text → Response) → H
  pub is_header : Text → Bool

pub record Router (R : Type 0) : Type 0 where
  pub inner : R
  pub manifest : List Registration

-- A handler and the name of its type.
pub record Handler (H : Type 0) : Type 0 where
  pub type_name : Text
  pub handler : H

abbrev pub is_slash : ℕ → Bool
is_slash c = c == b'/'

-- `prefix.trim_end_matches('/')`
abbrev pub base_of : Text → Text
base_of prefix = trim_end_matches is_slash prefix

abbrev pub nested_path : Text → Text → Text
nested_path base path = if path == codes "/" then base else base ++ path

abbrev pub nested : Text → Registration → Registration
nested base reg = record reg {
  path = nested_path base reg.path;
  path_params = parse_path_params (nested_path base reg.path);
}

module _ {R M H L S : Type 0} (axum : Axum R M H L S) where
  abbrev pub new : Router R
  new = record { inner = axum.new; manifest = [] }

  abbrev pub record_raw : Router R → Text → Text → Text → M → Router R
  record_raw r fqname method path method_router = record {
    inner = axum.route r.inner path method_router;
    manifest =
        r.manifest
        ++ record {
          fqname = fqname;
          method = method;
          path = path;
          path_params = parse_path_params path;
        }
          ∷ [];
  }

  -- `record` with the method router of the method
  unfoldable pub on_method : Text → Router R → Text → Handler H → Router R
  on_method method r path h =
      record_raw r h.type_name method path (axum.method_router method h.handler)

  abbrev pub get : Router R → Text → Handler H → Router R
  get = on_method (codes "GET")

  abbrev pub post : Router R → Text → Handler H → Router R
  post = on_method (codes "POST")

  abbrev pub put : Router R → Text → Handler H → Router R
  put = on_method (codes "PUT")

  abbrev pub delete : Router R → Text → Handler H → Router R
  delete = on_method (codes "DELETE")

  abbrev pub patch : Router R → Text → Handler H → Router R
  patch = on_method (codes "PATCH")

  unfoldable pub static_file : Router R → Text → Bytes → Text → CachePolicy → Router R
  static_file r path bytes content_type cache =
      record_raw r (codes "<static_file> GET " ++ path) (codes "GET") path (
        axum.method_router (codes "GET")
          (axum.constant (serve_static axum.is_header bytes content_type cache)))

  abbrev pub asset_found : Text → CachePolicy → Option Bytes → Response
  asset_found name cache none = not_found
  asset_found name cache (some bytes) =
      serve_static axum.is_header bytes (content_type_for name) cache

  abbrev pub asset_at : AssetSet → Option Text → Option Bytes
  asset_at files none = none
  asset_at files (some name) = asset_bytes files name

  -- the handler that `static_dir` mounts
  unfoldable pub asset_response : AssetSet → CachePolicy → Text → Response
  unfolding safe_asset_path
  asset_response files cache name = asset_found name cache (asset_at files (safe_asset_path name))

  unfoldable pub static_dir : Router R → Text → AssetSet → CachePolicy → Router R
  unfolding trim_end_matches asset_response
  static_dir r prefix files cache =
      let path = base_of prefix ++ codes "/{name}" in
      record_raw r (codes "<static_dir> GET " ++ path) (codes "GET") path
        (axum.method_router (codes "GET") (axum.named (asset_response files cache)))

  -- not recorded
  unfoldable pub route : Router R → Text → M → Router R
  route r path method_router = record r { inner = axum.route r.inner path method_router }

  unfoldable pub nest : Router R → Text → Router R → Router R
  unfolding trim_end_matches
  nest r prefix router = record {
    inner = axum.nest r.inner prefix router.inner;
    manifest = r.manifest ++ map (nested (base_of prefix)) router.manifest;
  }

  unfoldable pub merge : Router R → Router R → Router R
  merge r router = record {
    inner = axum.merge r.inner router.inner;
    manifest = r.manifest ++ router.manifest;
  }

  unfoldable pub layer : Router R → L → Router R
  layer r l = record r { inner = axum.layer r.inner l }

  unfoldable pub route_layer : Router R → L → Router R
  route_layer r l = record r { inner = axum.route_layer r.inner l }

  unfoldable pub with_state : Router R → S → Router R
  with_state r state = record r { inner = axum.with_state r.inner state }
