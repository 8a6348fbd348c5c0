-- ===== src/Config/Refusal.antt =====
-- crates/config/src/refusal.rs: what a failed boot carries.
use common_rust.Prelude.{Option, none, some, ◌++◌}
use common_rust.Prelude.Text.{Text, codes}

pub record Refusal : Type 0 where
  pub variable : Text
  pub value : Text
  pub accepted : Text
  pub detail : Option Text

abbrev pub new : Text → Text → Text → Refusal
new variable value accepted = record {
  variable = variable;
  value = value;
  accepted = accepted;
  detail = none;
}

abbrev pub with_detail : Refusal → Text → Refusal
with_detail r detail = record r { detail = some detail }

-- `debug` is the `{:?}` form of a text, which the standard library gives.
abbrev rendered_detail : Option Text → Text
rendered_detail none = codes ""
rendered_detail (some d) = codes " (" ++ (d ++ codes ")")

unfoldable pub display : (debug : Text → Text) → Refusal → Text
display debug r =
    r.variable
    ++ (codes "="
        ++ (debug r.value
            ++ (codes " is not valid — expected " ++ (r.accepted ++ rendered_detail r.detail))))
