-- ===== src/Routing/Manifest.antt =====
-- crates/routing/src/manifest.rs: the entries of the table of routes. JSON and writing the file are
-- parameters.
use common_rust.Prelude.{
  ℕ, Bool, ◌&&◌, ◌||◌, Option, none, some, List, [], ◌∷◌, ◌++◌, ◌==◌, nat_eq, list_eq,
  if◌then◌else◌,
}
use common_rust.Prelude.Result.{Result, ok, err}
use common_rust.Prelude.Text.{
  Text, codes, is_empty, strip_prefix, strip_suffix, starts_with, ends_with_char,
  trim_start_matches, split,
}
use common_rust.Prelude.Sort.{text_lt, sort_by}

pub record Registration : Type 0 where
  pub fqname : Text
  pub method : Text
  pub path : Text
  pub path_params : List Text

-- `seg.strip_prefix('{')?.strip_suffix('}')?`
unfoldable pub braced : Text → Option Text
unfolding strip_prefix strip_suffix
braced seg = elim (strip_prefix (codes "{") seg) [
  | none ↦ none
  | some rest ↦ strip_suffix (codes "}") rest
]

abbrev pub is_star : ℕ → Bool
is_star c = c == b'*'

abbrev pub inner_param : Option Text → Option Text
inner_param none = none
inner_param (some inner) =
    if starts_with (codes "{") inner || (ends_with_char b'}' inner || is_empty inner)
    then none
    else some (trim_start_matches is_star inner)

unfoldable pub path_param : Text → Option Text
unfolding braced starts_with ends_with_char trim_start_matches
path_param seg = inner_param (braced seg)

abbrev pub onto {ℓ} : {A : Type ℓ} → Option A → List A → List A
onto none xs = xs
onto (some x) xs = x ∷ xs

unfoldable pub params_of : List Text → List Text
unfolding path_param
params_of [] = []
params_of (seg ∷ segs) = onto (path_param seg) (params_of segs)

unfoldable pub parse_path_params : Text → List Text
unfolding params_of split
parse_path_params path = params_of (split b'/' path)

-- `(&a.path, &a.method) < (&b.path, &b.method)`
abbrev pub text_pair_lt : Text → Text → Text → Text → Bool
text_pair_lt path method path' method' =
    text_lt path path' || ((path == path') && text_lt method method')

unfoldable pub registration_before : Registration → Registration → Bool
unfolding text_lt
registration_before a b = text_pair_lt a.path a.method b.path b.method

unfoldable pub write_manifest :
    {W : Type 0}
    → (List Registration → Result Text Text)
    → (Text → Text → W → Result Text (Unit {0}) × W)
    → List Registration
    → Text
    → W
    → Result Text (Unit {0}) × W
unfolding sort_by registration_before
write_manifest to_json write regs path w = elim (to_json (sort_by registration_before regs)) [
  | err e ↦ (err e, w)
  | ok text ↦ write path (text ++ b'\n' ∷ []) w
]
