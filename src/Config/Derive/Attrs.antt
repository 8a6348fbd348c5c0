-- ===== src/Config/Derive/Attrs.antt =====
-- crates/config-derive/src/lib.rs: what `#[config(…)]` carries on a struct and on a field.
use common_rust.Prelude.{
  Bool, true, false, not, ◌&&◌, ◌||◌, Option, none, some, List, ◌++◌, ◌==◌, list_eq, nat_eq,
  if◌then◌else◌, ℕ, leb, all,
}
use common_rust.Prelude.Result.{Result, ok, err, ◌>>=◌, ◌>>◌}
use common_rust.Prelude.Text.{Text, codes, is_empty}
use common_rust.Macros.{
  fold_attrs, Meta, MetaValue, Attribute, MacroError, refused, text_value, no_value,
}

pub record RootAttrs : Type 0 where
  pub app : Option Text
  pub bin : Option Text

pub record FieldAttrs : Type 0 where
  pub default : Option Text
  pub required : Bool
  pub secret : Bool
  pub nested : Bool
  pub prod_required : Bool
  pub dev_only : Bool
  pub env : Option Text
  pub accepted : Option Text

abbrev pub root_meta : Meta → RootAttrs → Result MacroError RootAttrs
root_meta m out =
    if m.key == codes "app"
    then text_value m.value >>= (λ t. ok (record out { app = some t }))
    else if m.key == codes "bin"
    then text_value m.value >>= (λ t. ok (record out { bin = some t }))
    else err (refused (codes "unknown #[config] key on a struct: expected `app` or `bin`"))

abbrev is_ascii_alphanumeric : ℕ → Bool
is_ascii_alphanumeric c =
    (leb b'a' c && leb c b'z') || ((leb b'A' c && leb c b'Z') || (leb b'0' c && leb c b'9'))

abbrev pub is_prefix : Text → Bool
is_prefix app = not (is_empty app) && all is_ascii_alphanumeric app

abbrev pub checked_root : RootAttrs → Option Text → Option Text → Result MacroError RootAttrs
checked_root out none none = ok out
checked_root out none (some bin) =
    err (refused (codes "#[config(bin = …)] needs #[config(app = …)] on the same struct"))
checked_root out (some app) bin =
    if is_prefix app
    then ok out
    else err (
        refused (
          codes
            "#[config(app = …)] is the env prefix: ASCII letters and digits only, such as \"CRON\""))

unfoldable pub root_attrs : List Attribute → Result MacroError RootAttrs
unfolding fold_attrs all
root_attrs attrs = do
  out ← fold_attrs (codes "config") root_meta attrs (record { app = none; bin = none })
  checked_root out out.app out.bin

abbrev pub no_attrs : FieldAttrs
no_attrs = record {
  default = none;
  required = false;
  secret = false;
  nested = false;
  prod_required = false;
  dev_only = false;
  env = none;
  accepted = none;
}

abbrev set_flag : MetaValue → FieldAttrs → Result MacroError FieldAttrs
set_flag v out = no_value v >> ok out

abbrev field_meta : Meta → FieldAttrs → Result MacroError FieldAttrs
field_meta m out =
    if m.key == codes "default"
    then text_value m.value >>= (λ t. ok (record out { default = some t }))
    else if m.key == codes "required"
    then set_flag m.value (record out { required = true })
    else if m.key == codes "secret"
    then set_flag m.value (record out { secret = true })
    else if m.key == codes "nested"
    then set_flag m.value (record out { nested = true })
    else if m.key == codes "prod_required"
    then set_flag m.value (record out { prod_required = true })
    else if m.key == codes "dev_only"
    then set_flag m.value (record out { dev_only = true })
    else if m.key == codes "accepted"
    then text_value m.value >>= (λ t. ok (record out { accepted = some t }))
    else err (
        refused (
          codes "unknown #[config] key on a field: expected default, required, secret, nested, "
          ++ codes "prod_required, dev_only or accepted"))

unfoldable pub field_attrs : List Attribute → Result MacroError FieldAttrs
unfolding fold_attrs
field_attrs attrs = fold_attrs (codes "config") field_meta attrs no_attrs
