-- ===== src/Routing/Barrel.antt =====
-- crates/routing/src/barrel.rs: the file that exports the modules of a directory again. Reading the
-- directory and writing the file are functions in a record; a name that is no Unicode is `none`.
pub mod AnyOrder
use common_rust.Prelude.{
  ℕ, Bool, true, false, not, ◌&&◌, ◌||◌, Option, none, some, List, [], ◌∷◌, ◌++◌, ◌==◌, nat_eq,
  list_eq, if◌then◌else◌,
}
use common_rust.Prelude.Result.{Result, ok, err, ◌>>=◌}
use common_rust.Prelude.Text.{Text, codes, ends_with}
use common_rust.Prelude.Sort.{sort_by, text_lt}
use common_rust.Routing.Manifest.{onto}
use common_rust.Templating.Cache.{join_path}

-- A set that is only asked and changed by one element is its test.
pub record Barrel : Type 0 where
  pub type_only : Bool
  pub exclude : Text → Bool
  pub header : Option Text

abbrev pub default : Barrel
default = record {
  type_only = true;
  exclude = λ stem. (stem == codes "index") || (stem == codes "client");
  header = some (codes "// Generated — do not edit.");
}

abbrev pub values : Barrel → Barrel
values b = record b { type_only = false }

abbrev pub exclude : Barrel → Text → Barrel
exclude b stem = record b { exclude = λ t. (t == stem) || b.exclude t }

abbrev pub with_client : Barrel → Barrel
with_client b = record b { exclude = λ t. not (t == codes "client") && b.exclude t }

abbrev pub header : Barrel → Text → Barrel
header b line = record b { header = some line }

abbrev pub no_header : Barrel → Barrel
no_header b = record b { header = none }

abbrev cut_here : ℕ → ℕ → Text → Option (Text × Text) → Option (Text × Text)
cut_here c d s none = if d == c then some ([], s) else none
cut_here c d s (some (before, after)) = some (d ∷ before, after)

-- What stands before and after the last `c`.
unfoldable pub rsplit_once : ℕ → Text → Option (Text × Text)
rsplit_once c [] = none
rsplit_once c (d ∷ s) = cut_here c d s (rsplit_once c s)

-- The stem of a name whose extension is `ts`; what begins with its only dot has none.
abbrev ts_stem : Option (Text × Text) → Option Text
ts_stem none = none
ts_stem (some ([], after)) = none
ts_stem (some (c ∷ before, after)) = if after == codes "ts" then some (c ∷ before) else none

abbrev wanted : Barrel → Option Text → Option Text
wanted b none = none
wanted b (some stem) = if ends_with (codes ".d") stem || b.exclude stem then none else some stem

unfoldable pub stem_of : Barrel → Option Text → Option Text
unfolding rsplit_once ends_with
stem_of b none = none
stem_of b (some name) = wanted b (ts_stem (rsplit_once b'.' name))

-- the loop over the entries of the directory
unfoldable pub stems_of : Barrel → List (Result Text (Option Text)) → Result Text (List Text)
unfolding stem_of
stems_of b [] = ok []
stems_of b (err e ∷ entries) = err e
stems_of b (ok name ∷ entries) = do stems ← stems_of b entries; ok (onto (stem_of b name) stems)

abbrev keyword : Barrel → Text
keyword b = if b.type_only then codes "export type *" else codes "export *"

unfoldable pub export_lines : Barrel → List Text → Text
export_lines b [] = []
export_lines b (stem ∷ stems) =
    keyword b ++ (codes " from \"./" ++ (stem ++ (codes "\";\n" ++ export_lines b stems)))

abbrev header_line : Option Text → Text
header_line none = []
header_line (some line) = line ++ b'\n' ∷ []

abbrev pub barrel_text : Barrel → List Text → Text
barrel_text b stems = header_line b.header ++ export_lines b (sort_by text_lt stems)

pub record Directory (W : Type 0) : Type 0 where
  pub read_dir : Text → W → Result Text (List (Result Text (Option Text))) × W
  pub write : Text → Text → W → Result Text (Unit {0}) × W

abbrev listed_text : Barrel → Result Text (List (Result Text (Option Text))) → Result Text Text
listed_text b listing = do entries ← listing; stems ← stems_of b entries; ok (barrel_text b stems)

module _ {W : Type 0} (fs : Directory W) where
  unfoldable pub render : Barrel → Text → W → Result Text Text × W
  unfolding stems_of sort_by export_lines text_lt
  render b dir w = let (listing, w') = fs.read_dir dir w in (listed_text b listing, w')

  unfoldable pub write : Barrel → Text → W → Result Text (Unit {0}) × W
  unfolding render join_path
  write b dir w =
      let (text, w') = render b dir w in
      elim text [ err e ↦ (err e, w') | ok t ↦ fs.write (join_path dir (codes "index.ts")) t w' ]
