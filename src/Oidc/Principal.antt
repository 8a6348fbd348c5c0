-- ===== src/Oidc/Principal.antt =====
-- crates/oidc/src/principal.rs and error.rs: the authenticated caller, and how an upstream fails.
use common_rust.Prelude.{Bool, true, false, Option, none, some, List, ◌==◌, list_eq, nat_eq, any}
use common_rust.Prelude.Result.{Result, ok, err}
use common_rust.Prelude.Text.{Text}

pub record Principal : Type 0 where
  pub username : Text
  pub effective_groups : List Text

abbrev text_or : Option Text → Text → Text
text_or none d = d
text_or (some t) d = t

unfoldable pub from_userinfo : Text → Option Text → List Text → Result Text Principal
from_userinfo sub username groups =
    ok (record { username = text_or username sub; effective_groups = groups })

unfoldable pub in_group : Principal → Text → Bool
unfolding any
in_group p group = any (λ g. g == group) p.effective_groups

pub data MissingGroup : Type 0 where
  missing_group : MissingGroup

unfoldable pub require_group : Principal → Text → Result MissingGroup (Unit {0})
unfolding in_group
require_group p group = elim (in_group p group) [ true ↦ ok tt | false ↦ err missing_group ]

pub data Upstream : Type 0 where
  rejected : Text → Upstream
  unreachable : Text → Upstream
