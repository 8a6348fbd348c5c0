-- ===== src/Config/Help.antt =====
-- crates/config/src/help.rs: the `--help` text and the `--print-config` dump.
pub mod Masking
use Prim.Native.Nat.{max}
use common_rust.Prelude.{
  ℕ, zero, suc, ◌-◌, Bool, Option, none, some, List, [], ◌∷◌, ◌++◌, map, if◌then◌else◌, length, any,
  keep, ◌==◌, list_eq, list_beq, nat_eq, not, true, false,
}
use common_rust.Prelude.Text.{Text, codes, utf8_length, is_empty}
use common_rust.Config.Path.{section, leaf, FieldPath}
use common_rust.Config.Schema.{
  Field, field_flag, field_env, field_toml, Presence, Class, Kind, Entry, FileStatus, origin_text,
}
use common_rust.Config.Args.{config_flag, help_flag, print_config_flag}
use common_rust.Config.Layers.{config_env}
use common_rust.Config.Values.{Values, mask}

unfoldable pub spaces : ℕ → Text
spaces zero = []
spaces (suc n) = b' ' ∷ spaces n

-- `{text:<width$}`: a width counts characters.
unfoldable pub pad : ℕ → Text → Text
unfolding spaces
pad width text = text ++ spaces (width - length text)

-- `iter.map(len).max().unwrap_or(0)`: a length counts bytes.
unfoldable pub widest : List Text → ℕ
unfolding utf8_length
widest [] = 0
widest (t ∷ ts) = max (utf8_length t) (widest ts)

pub record Row : Type 0 where
  pub flag : Text
  pub env : Text
  pub key : Text
  pub tail : Text
  pub help : Text

unfoldable pub builtins : Text → List Row
builtins app =
    record {
      flag = config_flag ++ codes " <path>";
      env = config_env app;
      key = [];
      tail = codes "TOML file to read; a missing, unreadable or malformed one refuses";
      help = [];
    }
    ∷ record {
      flag = help_flag;
      env = [];
      key = [];
      tail = codes "print this text and exit";
      help = [];
    }
    ∷ record {
      flag = print_config_flag;
      env = [];
      key = [];
      tail = codes "print every value with its origin (secrets masked) and exit";
      help = [];
    }
    ∷ []

abbrev pub presence_note : Presence → Text
presence_note Presence.required = codes "required"
presence_note (Presence.default d) = codes "default " ++ d
presence_note Presence.optional = codes "optional"

abbrev pub tail_note : Class → Presence → Text
tail_note Class.prod_required p = codes "prod-required"
tail_note Class.dev_only p = codes "dev-only"
tail_note Class.neutral p = presence_note p

abbrev pub flag_note : Kind → Text → Text
flag_note Kind.bool flag = flag
flag_note Kind.text flag = flag ++ codes " <value>"

unfoldable pub row_of : Text → Field → Text × Row
row_of app f = (
  section f.path,
  record {
    flag = flag_note f.kind (field_flag f);
    env = field_env app f;
    key = leaf f.path;
    tail = tail_note f.class f.presence ++ (if f.secret then codes ", secret" else []);
    help = f.help;
  },
)

unfoldable pub help_line : ℕ → ℕ → ℕ → Row → Text
unfolding pad
help_line flag_w env_w key_w r =
    codes "  "
    ++ (pad flag_w r.flag
        ++ (codes "  "
            ++ (pad env_w r.env
                ++ (codes "  "
                    ++ (pad key_w r.key
                        ++ (codes "  "
                            ++ (r.tail
                                ++ (codes "\n"
                                    ++ (if is_empty r.help
                                        then []
                                        else codes "      " ++ (r.help ++ codes "\n"))))))))))

-- The sections in the order of their first row.
unfoldable pub sections_from : List Text → List (Text × Row) → List Text
unfolding any
sections_from seen [] = seen
sections_from seen ((s, _) ∷ rows) =
    sections_from (if any (λ t. t == s) seen then seen else seen ++ s ∷ []) rows

abbrev pub concat : List Text → Text
concat [] = []
concat (t ∷ ts) = t ++ concat ts

abbrev pub section_head : Text → Text
section_head [] = codes "top level\n"
section_head (c ∷ s) = codes "[" ++ ((c ∷ s) ++ codes "]\n")

unfoldable pub help_section : (Row → Text) → List (Text × Row) → Text → Text
unfolding keep
help_section line rows s =
    codes "\n"
    ++ (section_head s ++ concat (map (λ r. line r.1) (keep (λ (r : Text × Row). r.0 == s) rows)))

unfoldable pub help : Text → Text → List Field → Text
unfolding builtins row_of help_line sections_from help_section widest
help app bin fields =
    let rows = map (row_of app) fields in
    let all_rows = builtins app ++ map (λ (r : Text × Row). r.1) rows in
    let flag_w = widest (map (λ (r : Row). r.flag) all_rows) in
    let env_w = widest (map (λ (r : Row). r.env) all_rows) in
    let key_w = widest (map (λ (r : Row). r.key) all_rows) in
    let line = help_line flag_w env_w key_w in
    bin
    ++ (codes ": every value has a flag, an environment variable and a TOML key.\n"
        ++ (codes "Later wins: defaults < config file < environment < arguments.\n\n"
            ++ (concat (map line (builtins app))
                ++ concat (map (help_section line rows) (sections_from [] rows)))))

abbrev unset_reason : Presence → Text
unset_reason Presence.required = codes "required"
unset_reason (Presence.default _) = codes "optional"
unset_reason Presence.optional = codes "optional"

abbrev pub shown : Bool → Entry → Text
shown secret e = if secret then mask else e.text

-- Key, value and origin of one field.
unfoldable pub config_row : Field → Option Entry → Text × Text × Text
unfolding origin_text
config_row f (some e) = (field_toml f, shown f.secret e, origin_text e.origin)
config_row f none = (field_toml f, codes "<unset>", unset_reason f.presence)

abbrev file_line : Text → FileStatus → Text
file_line app FileStatus.not_configured =
    codes "config file: none ("
    ++ (config_flag ++ (codes " or " ++ (config_env app ++ codes " to set one)\n")))
file_line app (FileStatus.read path) = codes "config file: " ++ (path ++ codes "\n")

unfoldable pub config_line : ℕ → ℕ → Text × Text × Text → Text
unfolding pad
config_line key_w value_w (key, value, origin) =
    pad key_w key ++ (codes " = " ++ (pad value_w value ++ (codes "  " ++ (origin ++ codes "\n"))))

abbrev pub config_rows : Values → List (Text × Text × Text)
config_rows v = map (λ f. config_row f (v.entries f.path)) v.fields

-- The columns as wide as their widest cells, below the line on the file.
unfoldable pub render_rows : Text → FileStatus → List (Text × Text × Text) → Text
unfolding config_line widest
render_rows app file rows =
    let key_w = widest (map (λ (r : Text × Text × Text). r.0) rows) in
    let value_w = widest (map (λ (r : Text × Text × Text). r.1) rows) in
    file_line app file ++ concat (map (config_line key_w value_w) rows)

unfoldable pub print_config : Values → Text
unfolding config_row render_rows
print_config v = render_rows v.app v.file (config_rows v)
