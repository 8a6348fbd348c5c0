-- ===== src/Routing/Assets.antt =====
-- crates/routing/src/static_files.rs: the answer with the bytes of an embedded asset, and which
-- names are looked up. Whether a text may be the value of a header is a parameter.
use common_rust.Prelude.{
  ℕ, Bool, not, ◌&&◌, Option, none, some, List, [], ◌∷◌, ◌==◌, list_eq, nat_eq, if◌then◌else◌, all,
}
use common_rust.Prelude.Tests.{leb}
use common_rust.Prelude.Text.{Text, codes, is_empty, starts_with, split, utf8_length}
use common_rust.Templating.Cache.{Bytes}

pub data CachePolicy : Type 0 where
  immutable no_cache : CachePolicy

abbrev header : CachePolicy → Text
header immutable = codes "public, max-age=31536000, immutable"
header no_cache = codes "no-cache"

pub record Response : Type 0 where
  pub status : ℕ
  pub content_type : Option Text
  pub cache_control : Option Text
  pub body : Bytes

unfoldable pub serve_static : (Text → Bool) → Bytes → Text → CachePolicy → Response
serve_static is_header bytes content_type cache = record {
  status = 200;
  content_type = if is_header content_type then some content_type else none;
  cache_control = some (header cache);
  body = bytes;
}

abbrev pub not_found : Response
not_found = record { status = 404; content_type = none; cache_control = none; body = [] }

abbrev last_or_empty : List Text → Text
last_or_empty [] = []
last_or_empty (t ∷ []) = t
last_or_empty (t ∷ (u ∷ ts)) = last_or_empty (u ∷ ts)

-- `name.rsplit('.').next().unwrap_or("")`
unfoldable pub extension : Text → Text
unfolding split
extension name = last_or_empty (split b'.' name)

abbrev pub content_types : List (Text × Text)
content_types =
    (codes "js", codes "text/javascript; charset=utf-8")
    ∷ (codes "mjs", codes "text/javascript; charset=utf-8")
    ∷ (codes "css", codes "text/css; charset=utf-8")
    ∷ (codes "svg", codes "image/svg+xml")
    ∷ (codes "png", codes "image/png")
    ∷ (codes "ico", codes "image/x-icon")
    ∷ (codes "woff2", codes "font/woff2")
    ∷ (codes "map", codes "application/json")
    ∷ (codes "json", codes "application/json")
    ∷ (codes "html", codes "text/html; charset=utf-8")
    ∷ []

abbrev content_type_in : List (Text × Text) → Text → Text
content_type_in [] ext = codes "application/octet-stream"
content_type_in ((e, t) ∷ types) ext = if ext == e then t else content_type_in types ext

unfoldable pub content_type_for : Text → Text
unfolding extension
content_type_for name = content_type_in content_types (extension name)

abbrev pub is_plain_segment : Text → Bool
is_plain_segment seg = not (is_empty seg) && not (starts_with (codes ".") seg)

unfoldable pub safe_asset_path : Text → Option Text
unfolding utf8_length split starts_with all
safe_asset_path path =
    if not (is_empty path) && (leb (utf8_length path) 512 && all is_plain_segment (split b'/' path))
    then some path
    else none

pub record AssetSet : Type 0 where
  pub files : List (Text × Bytes)

abbrev bytes_of : List (Text × Bytes) → Text → Option Bytes
bytes_of [] name = none
bytes_of ((n, bytes) ∷ files) name = if n == name then some bytes else bytes_of files name

-- `AssetSet::get`
unfoldable pub get : AssetSet → Text → Option Bytes
get set name = bytes_of set.files name
