-- ===== src/Templating/Cache.antt =====
-- crates/templating/src/lib.rs: static files read from a directory and kept while their times of
-- change are the same. The file system is a record of functions over a world, which may change it
-- between any two calls; the digest is a function. Paths are those of Unix, as texts. The pins are
-- the list of a hash map, in the order in which it is walked. Requests are taken one at a time, and
-- no lock is poisoned.
pub mod Pinned
use common_rust.Prelude.{
  ℕ, Bool, true, false, not, ◌&&◌, ◌||◌, Option, none, some, List, [], ◌∷◌, ◌++◌, ◌==◌, list_eq,
  list_beq, nat_eq, keep, is_eq, if◌then◌else◌,
}
use common_rust.Prelude.Dict
use common_rust.Prelude.Dict.{Dict, empty}
use common_rust.Prelude.Result.{Result, ok, err, ◌>>=◌, ◌>>◌}
use common_rust.Prelude.Text.{Text, codes, is_empty, split, starts_with, ends_with_char}
use common_rust.Templating.Shell.{RenderError, bad_dir, missing, pin_mismatch, io, unsafe_name}

abbrev pub Bytes : Type 0
Bytes = List ℕ

pub data IoError : Type 0 where
  not_found : IoError
  failed : Text → IoError

pub data Component : Type 0 where
  root_dir cur_dir parent_dir : Component
  normal : Text → Component

-- `Path::components`: a part `.` counts at the start alone.
abbrev inner_component : Text → List Component → List Component
inner_component part rest =
    if is_empty part || (part == codes ".")
    then rest
    else if part == codes ".."
    then parent_dir ∷ rest
    else normal part ∷ rest

unfoldable pub inner_components : List Text → List Component
inner_components [] = []
inner_components (part ∷ parts) = inner_component part (inner_components parts)

abbrev first_components : List Text → List Component
first_components [] = []
first_components (part ∷ parts) =
    if part == codes "." then cur_dir ∷ inner_components parts else inner_components (part ∷ parts)

unfoldable pub components : Text → List Component
unfolding inner_components split starts_with
components path =
    if starts_with (codes "/") path
    then root_dir ∷ inner_components (split b'/' path)
    else first_components (split b'/' path)

abbrev component_eq : Component → Component → Bool
component_eq (normal a) (normal b) = a == b
component_eq root_dir root_dir = true
component_eq cur_dir cur_dir = true
component_eq parent_dir parent_dir = true
component_eq _ _ = false

-- `Path::starts_with`
unfoldable pub is_prefix : List Component → List Component → Bool
is_prefix [] path = true
is_prefix (c ∷ base) [] = false
is_prefix (c ∷ base) (d ∷ path) = component_eq c d && is_prefix base path

-- `Path::join`
unfoldable pub join_path : Text → Text → Text
unfolding starts_with ends_with_char
join_path base path =
    if starts_with (codes "/") path
    then path
    else if is_empty base || ends_with_char b'/' base
    then base ++ path
    else base ++ b'/' ∷ path

pub record FileSystem (W : Type 0) : Type 0 where
  pub is_dir : Text → W → Bool × W
  pub canonicalize : Text → W → Result IoError Text × W
  pub modified : Text → W → Result IoError ℕ × W
  pub read : Text → W → Result IoError Bytes × W

pub record Entry : Type 0 where
  pub mtime : ℕ
  pub bytes : Bytes

pub record AssetCache : Type 0 where
  pub root : Text
  pub canonical_root : Text
  pub pins : List (Text × Bytes)
  pub entries : Dict Text Entry

pub record Builder : Type 0 where
  pub root : Text
  pub pins : List (Text × Bytes)

abbrev pub builder : Text → Builder
builder root = record { root = root; pins = [] }

-- `Builder::pin`: a name has one pin, the last one given.
unfoldable pub pin : Builder → Text → Bytes → Builder
unfolding keep
pin b name expected = record b {
  pins = keep (λ (p : Text × Bytes). not (p.0 == name)) b.pins ++ (name, expected) ∷ [];
}

abbrev pub pin_of : List (Text × Bytes) → Text → Option Bytes
pin_of [] name = none
pin_of ((n, expected) ∷ pins) name = if n == name then some expected else pin_of pins name

abbrev io_error : Text → IoError → RenderError
io_error name not_found = missing name
io_error name (failed e) = io name e

abbrev io_text : IoError → Text
io_text not_found = codes "entity not found"
io_text (failed e) = e

unfoldable pub is_safe : List Component → Bool
is_safe [] = true
is_safe (normal _ ∷ cs) = is_safe cs
is_safe (cur_dir ∷ cs) = is_safe cs
is_safe (root_dir ∷ cs) = false
is_safe (parent_dir ∷ cs) = false

module _ {W : Type 0} (fs : FileSystem W) (sha256 : Bytes → Bytes) where
  abbrev inside : Text → Text → Result IoError Text → Result RenderError Text
  inside canonical_root name (err e) = err (io_error name e)
  inside canonical_root name (ok real) =
      if is_prefix (components canonical_root) (components real)
      then ok real
      else err (unsafe_name name)

  unfoldable pub safe_path : AssetCache → Text → W → Result RenderError Text × W
  unfolding is_safe components is_prefix join_path
  safe_path c name w =
      if is_safe (components name)
      then (let (real, w') = fs.canonicalize (join_path c.root name) w in
          (inside c.canonical_root name real, w'))
      else (err (unsafe_name name), w)

  abbrev map_io {ℓ} : {A : Type ℓ} → Text → Result IoError A → Result RenderError A
  map_io name (ok a) = ok a
  map_io name (err e) = err (io_error name e)

  unfoldable pub mtime : Text → Text → W → Result RenderError ℕ × W
  mtime path name w = let (r, w') = fs.modified path w in (map_io name r, w')

  unfoldable pub verified : Text → Option Bytes → Bytes → Result RenderError Bytes
  verified name none bytes = ok bytes
  verified name (some expected) bytes =
      if sha256 bytes == expected then ok bytes else err (pin_mismatch name)

  unfoldable pub read_verified : Text → Text → Option Bytes → W → Result RenderError Bytes × W
  unfolding verified
  read_verified path name expected w =
      let (r, w') = fs.read path w in (map_io name r >>= verified name expected, w')

  -- The cache after a read, whose result is handed out.
  abbrev pub stored :
      Text
      → ℕ
      → AssetCache
      → Result RenderError Bytes × W
      → Result RenderError Bytes × (AssetCache × W)
  stored name mtime c (err e, w) = (err e, (c, w))
  stored name mtime c (ok bytes, w) = (
    ok bytes,
    (
      record c { entries = Dict.insert name (record { mtime = mtime; bytes = bytes }) c.entries },
      w,
    ),
  )

  abbrev pub reread : Text → Text → ℕ → AssetCache → W → Result RenderError Bytes × (AssetCache × W)
  reread path name time c w = stored name time c (read_verified path name (pin_of c.pins name) w)

  abbrev pub from_entry :
      Option Entry → Text → Text → ℕ → AssetCache → W → Result RenderError Bytes × (AssetCache × W)
  from_entry none path name time c w = reread path name time c w
  from_entry (some e) path name time c w =
      let fresh = reread path name time c w in
      if is_eq e.mtime time then (ok e.bytes, (c, w)) else fresh

  abbrev pub at_time :
      Result RenderError ℕ × W
      → Text
      → Text
      → AssetCache
      → Result RenderError Bytes × (AssetCache × W)
  at_time (err e, w) path name c = (err e, (c, w))
  at_time (ok time, w) path name c = from_entry (c.entries name) path name time c w

  abbrev pub at_path :
      Result RenderError Text × W → Text → AssetCache → Result RenderError Bytes × (AssetCache × W)
  at_path (err e, w) name c = (err e, (c, w))
  at_path (ok path, w) name c = at_time (mtime path name w) path name c

  unfoldable pub static_file : Text → AssetCache × W → Result RenderError Bytes × (AssetCache × W)
  unfolding safe_path mtime read_verified
  static_file name (c, w) = at_path (safe_path c name w) name c

  -- the loop of `build` over the pins
  abbrev pub check_pin :
      AssetCache → Text → Bytes → Result RenderError Text × W → Result RenderError Bytes × W
  check_pin c name expected (err e, w) = (err e, w)
  check_pin c name expected (ok path, w) = read_verified path name (some expected) w

  unfoldable pub check_pins :
      AssetCache → List (Text × Bytes) → W → Result RenderError (Unit {0}) × W
  unfolding safe_path read_verified
  check_pins c [] w = (ok tt, w)
  check_pins c ((name, expected) ∷ pins) w =
      let (r, w') = check_pin c name expected (safe_path c name w) in
      let (rest, w'') = check_pins c pins w' in elim r [ ok _ ↦ (rest, w'') | err e ↦ (err e, w') ]

  abbrev pub with_root : Builder → Result IoError Text × W → Result RenderError AssetCache × W
  with_root b (err e, w) = (err (io b.root (io_text e)), w)
  with_root b (ok canonical, w) =
      let c : AssetCache = record {
        root = b.root;
        canonical_root = canonical;
        pins = b.pins;
        entries = empty;
      } in
      let (checked, w') = check_pins c b.pins w in (checked >> ok c, w')

  unfoldable pub build : Builder → W → Result RenderError AssetCache × W
  unfolding check_pins
  build b w =
      let (is_directory, w') = fs.is_dir b.root w in
      if is_directory then with_root b (fs.canonicalize b.root w') else (err (bad_dir b.root), w')
