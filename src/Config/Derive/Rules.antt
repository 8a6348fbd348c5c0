-- ===== src/Config/Derive/Rules.antt =====
-- crates/config-derive/src/lib.rs: the class and the presence that a field's type and keys allow.
use common_rust.Prelude.{
  Bool, true, false, not, ◌&&◌, ◌||◌, Option, none, some, ◌++◌, ◌==◌, list_eq, nat_eq,
  if◌then◌else◌,
}
use common_rust.Prelude.Result.{Result, ok, err}
use common_rust.Prelude.Text.{Text, codes, is_some}
use common_rust.Config.Schema.{Presence, Class, neutral, prod_required, dev_only}
use common_rust.Macros.{Ty, Segments, Arguments, Generics, MacroError, refused, is_ident}
use common_rust.Config.Derive.Attrs.{FieldAttrs}

pub data Shape : Type 0 where
  bool opt_bool : Shape
  opt plain : Ty → Shape

abbrev only_type : Generics → Option Ty
only_type (Generics.ty_arg t Generics.stop) = some t
only_type _ = none

abbrev option_args : Text → Arguments → Option Ty
option_args ident (Arguments.angle args) = if ident == codes "Option" then only_type args else none
option_args ident Arguments.bare = none
option_args ident Arguments.parenthesized = none

abbrev last_option : Segments → Option Ty
last_option Segments.end = none
last_option (Segments.segment ident args Segments.end) = option_args ident args
last_option (Segments.segment _ _ (Segments.segment ident args rest)) =
    last_option (Segments.segment ident args rest)

abbrev option_inner : Ty → Option Ty
option_inner (Ty.path false leading segments) = last_option segments
option_inner (Ty.path true leading segments) = none
option_inner (Ty.tuple ts) = none
option_inner (Ty.other t) = none

abbrev shape_as : Ty → Option Ty → Shape
shape_as ty none = plain ty
shape_as ty (some inner) = if is_ident inner (codes "bool") then opt_bool else opt inner

unfoldable pub shape : Ty → Shape
shape ty = if is_ident ty (codes "bool") then bool else shape_as ty (option_inner ty)

abbrev not_both : MacroError
not_both = refused (codes "a field is #[config(prod_required)] or #[config(dev_only)], not both")

abbrev prod_needs : MacroError
prod_needs = refused (
    codes "#[config(prod_required)] needs an Option<T> field with no default: "
    ++ codes "unset is legal under dev and refused under prod")

abbrev dev_needs : MacroError
dev_needs = refused (
    codes "#[config(dev_only)] needs an Option<T> or bool field with no default: "
    ++ codes "set under prod is refused")

abbrev is_optional : Shape → Bool
is_optional bool = false
is_optional opt_bool = true
is_optional (opt t) = true
is_optional (plain t) = false

abbrev is_switch : Shape → Bool
is_switch bool = true
is_switch opt_bool = true
is_switch (opt t) = true
is_switch (plain t) = false

abbrev pub none_or_false : Option Text → Bool
none_or_false none = true
none_or_false (some d) = d == codes "false"

abbrev pub class_as : Bool → Bool → Shape → FieldAttrs → Result MacroError Class
class_as false false shape a = ok neutral
class_as true true shape a = err not_both
class_as true false shape a =
    if is_optional shape && (not (is_some a.default) && not a.required)
    then ok prod_required
    else err prod_needs
class_as false true shape a =
    if is_switch shape && (none_or_false a.default && not a.required)
    then ok dev_only
    else err dev_needs

unfoldable pub class : Shape → FieldAttrs → Result MacroError Class
class shape a = class_as a.prod_required a.dev_only shape a

abbrev pub presence_of :
    Option Text → Bool → Result MacroError Presence → Result MacroError Presence
presence_of (some d) required else_ = ok (Presence.default d)
presence_of none true else_ = ok Presence.required
presence_of none false else_ = else_

abbrev needs_presence : MacroError
needs_presence =
    refused
      (codes "a field needs #[config(default = \"…\")], #[config(required)], or an Option<T> type")

abbrev pub presence_as : Shape → FieldAttrs → Result MacroError Presence
presence_as bool a = presence_of a.default a.required (ok (Presence.default (codes "false")))
presence_as (plain t) a = presence_of a.default a.required (err needs_presence)
presence_as _ a =
    if is_some a.default || a.required
    then err (
        refused (
          codes "an Option<T> field is optional by its type: drop the Option, or drop default/"
          ++ codes "required"))
    else ok Presence.optional

unfoldable pub presence : Shape → FieldAttrs → Result MacroError Presence
presence shape a =
    if is_some a.default && a.required
    then err (
        refused (codes "a field is either #[config(default = …)] or #[config(required)], not both"))
    else presence_as shape a
