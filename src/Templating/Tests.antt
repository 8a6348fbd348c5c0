-- ===== src/Templating/Tests.antt =====
-- Asset origins, a script block, and a directory with one pinned file whose time of change moves
-- with every call, and the theorems applied to them.
use common_rust.Prelude.{
  ℕ, true, suc, some, [], ◌∷◌, ◌++◌, none, keep, list_beq, ◌≡◌, refl, ◌↔◌, arith,
}
use common_rust.Prelude.Result.{ok}
use common_rust.Prelude.Text.{Text, codes}
use common_rust.Prelude.Text.Laws.{Lacks}
use common_rust.Config.Class.{Deployment}
use common_rust.Templating.Origin.{parse}
use common_rust.Templating.Origin.Accepted.{IsOrigin, parse-IsOrigin}
use common_rust.Templating.Shell.{Engine, json_for_script_block}
use common_rust.Templating.Shell.Block.{Reads, json_for_script_block-Reads}
use common_rust.Templating.Cache.{
  FileSystem, AssetCache, Bytes, Builder, builder, pin, build, static_file, pin_of,
}
use common_rust.Templating.Cache.Pinned.{HasHash, after, static_file-HasHash}

abbrev cdn : Text
cdn = codes "https://cdn.example"

parse-IsOrigin_example :
    (parse (some cdn) Deployment.prod ≡ ok (some (record { as_str = cdn })))
    ↔ IsOrigin (some cdn) (record { as_str = cdn })
parse-IsOrigin_example = parse-IsOrigin (some cdn) Deployment.prod (record { as_str = cdn })

-- The configuration is the text of its JSON.
abbrev sample_engine : Engine Text Text
sample_engine = record {
  compile = λ shell. ok shell;
  render_to_string = λ template origin block. ok (template ++ (origin ++ block));
  to_json = λ config. ok config;
}

script_Reads : Reads (codes "\"</\"") (codes "\"</\"")
script_Reads = Reads.plain _ (omega arith) (
    Reads.plain _ (omega arith)
      (Reads.plain _ (omega arith) (Reads.plain _ (omega arith) Reads.done)))

script_block : json_for_script_block sample_engine (codes "\"</\"") ≡ ok (codes "\"\\u003c/\"")
unfolding json_for_script_block
script_block = refl

json_for_script_block-Reads_example :
    Lacks b'<' (codes "\"\\u003c/\"")
    × Lacks b'>' (codes "\"\\u003c/\"")
    × Lacks b'&' (codes "\"\\u003c/\"")
    × Reads (codes "\"\\u003c/\"") (codes "\"</\"")
json_for_script_block-Reads_example =
    json_for_script_block-Reads sample_engine (codes "\"</\"") (codes "\"</\"")
      (codes "\"\\u003c/\"") (codes "\"</\"") refl script_block script_Reads

abbrev sample_files : FileSystem ℕ
sample_files = record {
  is_dir = λ path w. (true, suc w);
  canonicalize = λ path w. (ok path, suc w);
  modified = λ path w. (ok w, suc w);
  read = λ path w. (ok (7 ∷ []), suc w);
}

abbrev sha256 : Bytes → Bytes
sha256 bytes = 1 ∷ bytes

abbrev pinned : Builder
pinned = pin (builder (codes "/srv")) (codes "a") (1 ∷ 7 ∷ [])

abbrev pinned_cache : AssetCache
pinned_cache = record {
  root = codes "/srv";
  canonical_root = codes "/srv";
  pins = pinned.pins;
  entries = λ name. none;
}

built : build sample_files sha256 pinned 0 ≡ (ok pinned_cache, 4)
unfolding build pin list_beq keep
built = refl

answered :
    (static_file sample_files sha256
      (codes "a")
      (after sample_files sha256 (codes "a" ∷ []) (pinned_cache, 4))).0
    ≡ ok (7 ∷ [])
unfolding static_file pin list_beq keep
answered = refl

static_file-HasHash_example : HasHash sample_files sha256 (pin_of pinned.pins (codes "a")) (7 ∷ [])
static_file-HasHash_example =
    static_file-HasHash sample_files sha256 pinned 0 4 pinned_cache (codes "a" ∷ []) (codes "a")
      (7 ∷ []) built answered
