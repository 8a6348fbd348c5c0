-- ===== src/Logging/Designator.antt =====
-- crates/logging/src/designator.rs: the vocabulary of designators and its text form.
pub mod RoundTrip
use common_rust.Prelude.{
  Bool, true, Option, none, some, List, [], ◌∷◌, ◌++◌, ◌==◌, list_eq, nat_eq, list_beq, find,
}
use common_rust.Prelude.Text.{Text, codes, starts_with}

abbrev pub custom_prefix : Text
custom_prefix = codes "c-"

pub data Designator : Type 0 where
  auth business upstream storage http startup : Designator
  custom : Text → Designator

-- `Display`
unfoldable pub display : Designator → Text
display auth = codes "auth"
display business = codes "business"
display upstream = codes "upstream"
display storage = codes "storage"
display http = codes "http"
display startup = codes "startup"
display (custom column) = column

-- `AsRef<str>`: the name of the variant
unfoldable pub as_ref : Designator → Text
unfolding display
as_ref auth = codes "auth"
as_ref business = codes "business"
as_ref upstream = codes "upstream"
as_ref storage = codes "storage"
as_ref http = codes "http"
as_ref startup = codes "startup"
as_ref (custom column) = codes "custom"

abbrev pub stand : List Designator
stand = auth ∷ business ∷ upstream ∷ storage ∷ http ∷ startup ∷ []

unfoldable pub from : Text → Designator
from name = custom (custom_prefix ++ name)

abbrev pub custom_or : Option Designator → Text → Designator
custom_or none column = custom column
custom_or (some d) column = d

unfoldable pub from_str : Text → Designator
unfolding as_ref find
from_str column = custom_or (find (λ d. as_ref d == column) stand) column

unfoldable pub is_well_formed : Designator → Bool
unfolding starts_with
is_well_formed auth = true
is_well_formed business = true
is_well_formed upstream = true
is_well_formed storage = true
is_well_formed http = true
is_well_formed startup = true
is_well_formed (custom column) = starts_with custom_prefix column
