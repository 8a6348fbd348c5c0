-- ===== src/Config/Derive/Tests.antt =====
-- A struct that the derive takes, its expansion, and the theorems applied to it.
use common_rust.Prelude.{
  true, false, none, some, List, [], ◌∷◌, ◌≡◌, refl, list_eq, nat_eq, list_beq, if◌then◌else◌,
}
use common_rust.Prelude.Result.{ok, ◌>>=◌}
use common_rust.Prelude.Text.{Text, codes}
use common_rust.Config.Path.{FieldPath, child}
use common_rust.Config.Schema.{Field, Presence, neutral, prod_required, dev_only, Kind}
use common_rust.Config.File.{Files, Table}
use common_rust.Config.Values
use common_rust.Config.Values.{Values, Fault}
use common_rust.Config.Class.{prod, deployment_variable, deployment_accepted}
use common_rust.Config.Load.{load_from}
use common_rust.Config.Load.NoPanic.{IsSafe, bind-IsSafe, bool-IsSafe}
use common_rust.Config.Derive.Rules.{Shape}
use common_rust.Config.Derive.Expand.{Item, nested, leaf, Expansion, expand, deployment_help}
use common_rust.Config.Derive.Meaning.{Impl, Types, root_of}
use common_rust.Config.Derive.Closed.{IsClosed, load_derived-IsSafe}
use common_rust.Config.Derive.Checked.{IsChecked, expand-IsChecked}
use common_rust.Macros.{
  Ty, Segments, Arguments, Generics, Meta, flag, literal, Attribute, keyed, doc, named_struct,
  DeriveInput,
}

abbrev named : Text → Ty
named t = Ty.path false false (Segments.segment t Arguments.bare Segments.end)

abbrev option_of : Text → Ty
option_of t = Ty.path false false (
    Segments.segment (codes "Option") (Arguments.angle (Generics.ty_arg (named t) Generics.stop))
      Segments.end)

abbrev config_keys : List Meta → List Attribute
config_keys metas = keyed (codes "config") (some metas) ∷ []

abbrev key_flag : Text → Meta
key_flag t = record { key = t; value = flag }

abbrev cron_input : DeriveInput
cron_input = record {
  ident = codes "CronConfig";
  attrs = config_keys (record { key = codes "app"; value = literal (codes "CRON") } ∷ []);
  items = named_struct (
      record { ident = codes "deployment"; ty = named (codes "Deployment"); attrs = [] }
      ∷ record {
        ident = codes "oidc";
        ty = named (codes "Oidc");
        attrs = config_keys (key_flag (codes "nested") ∷ []);
      }
      ∷ record {
        ident = codes "token";
        ty = option_of (codes "String");
        attrs =
            doc (some (codes " The token. "))
            ∷ config_keys (key_flag (codes "secret") ∷ key_flag (codes "prod_required") ∷ []);
      }
      ∷ record {
        ident = codes "stub";
        ty = named (codes "bool");
        attrs = config_keys (key_flag (codes "dev_only") ∷ []);
      }
      ∷ []);
}

abbrev cron_items : List Item
cron_items =
    leaf (codes "deployment") (record {
      help = deployment_help;
      presence = Presence.required;
      class = neutral;
      secret = false;
      kind = Kind.text;
      env = some deployment_variable;
      shape = Shape.plain (named (codes "Deployment"));
      accepted = some deployment_accepted;
    })
    ∷ nested (codes "oidc") (named (codes "Oidc"))
    ∷ leaf (codes "token") (record {
      help = codes "The token.";
      presence = Presence.optional;
      class = prod_required;
      secret = true;
      kind = Kind.text;
      env = none;
      shape = Shape.opt (named (codes "String"));
      accepted = none;
    })
    ∷ leaf (codes "stub") (record {
      help = [];
      presence = Presence.default (codes "false");
      class = dev_only;
      secret = false;
      kind = Kind.bool;
      env = none;
      shape = Shape.bool;
      accepted = none;
    })
    ∷ []

abbrev cron_expansion : Expansion
cron_expansion = record { items = cron_items; root = some (codes "CRON", codes "cron") }

cron_expand : expand cron_input ≡ ok cron_expansion
unfolding expand list_beq
cron_expand = refl

expand-IsChecked_example : IsChecked cron_expansion
expand-IsChecked_example = expand-IsChecked cron_input cron_expand

-- The nested type has one flag.
abbrev oidc_flag : FieldPath → Field
oidc_flag path = record {
  path = path;
  help = [];
  presence = Presence.required;
  class = neutral;
  secret = false;
  kind = Kind.bool;
  env = none;
}

abbrev oidc_impl : Impl Text
oidc_impl = record {
  schema = λ prefix. oidc_flag (child prefix (codes "on")) ∷ [];
  from_values = λ v prefix. Values.bool v (child prefix (codes "on")) >>= λ b. ok [];
}

oidc-IsClosed : IsClosed oidc_impl
oidc-IsClosed v prefix (m, _) =
    bind-IsSafe (Values.bool v (child prefix (codes "on"))) _
      (bool-IsSafe v (oidc_flag (child prefix (codes "on"))) m) (λ _ _. tt)

abbrev text_types : Types Text
text_types = record {
  of_bool = λ b. if b then codes "true" else codes "false";
  of_option = λ o. elim o [ none ↦ [] | some t ↦ t ];
  from_str = λ ty t. ok t;
  type_name = λ ty. codes "String";
  impl_of = λ ty. oidc_impl;
}

abbrev no_files : Files
no_files = record { read_to_string = λ _. ok []; from_str = λ _. ok Table.nil }

load_derived-IsSafe_example : IsSafe (
    load_from no_files
      (root_of text_types (codes "CRON", codes "cron") (λ _. prod) cron_items)
      (codes "--stub" ∷ [])
      ((deployment_variable, codes "prod") ∷ []))
load_derived-IsSafe_example =
    load_derived-IsSafe text_types no_files (codes "CRON", codes "cron") (λ _. prod) cron_items
      (codes "--stub" ∷ []) ((deployment_variable, codes "prod") ∷ [])
      (tt, (oidc-IsClosed, (tt, (tt, tt))))
