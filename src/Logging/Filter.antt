-- ===== src/Logging/Filter.antt =====
-- crates/logging/src/filter.rs: which designators reach the output, and at what level. Reading a
-- level is the tracing library's; levels have its order, off below error and trace above all.
pub mod Rules
pub mod Known
use common_rust.Prelude.{
  ℕ, Bool, true, false, Option, none, some, List, [], ◌∷◌, ◌++◌, ◌==◌, list_eq, list_beq, nat_eq,
  leb, keep, not, map, if◌then◌else◌,
}
use common_rust.Prelude.Dict.{Dict, insert, empty, or_else}
use common_rust.Prelude.Result.{Result, ok, err, ◌>>=◌, ◌>>◌}
use common_rust.Prelude.Text.{Text, codes, is_empty, trim, split, split_once}
use common_rust.Config.Refusal.{Refusal, new}
use common_rust.Logging.Designator.{from_str, is_well_formed}

pub data LevelFilter : Type 0 where
  off error warn info debug trace : LevelFilter

abbrev rank : LevelFilter → ℕ
rank off = 0
rank error = 1
rank warn = 2
rank info = 3
rank debug = 4
rank trace = 5

abbrev pub level_le : LevelFilter → LevelFilter → Bool
level_le a b = leb (rank a) (rank b)

pub record Designators : Type 0 where
  pub rules : Dict Text LevelFilter
  pub default : Option LevelFilter
  pub unset : Bool

abbrev pub no_rules : Designators
no_rules = record { rules = empty; default = none; unset = false }

abbrev pub permissive : Designators
permissive = record no_rules { unset = true }

abbrev pub designators_variable : Text
designators_variable = codes "LOG_DESIGNATORS"

abbrev level_accepted : Text
level_accepted =
    codes "a level, one of [\"trace\", \"debug\", \"info\", \"warn\", \"error\", \"off\"]"

abbrev designator_accepted : Text
designator_accepted =
    codes
      "a designator, one of [\"auth\", \"business\", \"upstream\", \"storage\", \"http\", \"startup\"], "
    ++ codes "or a project designator carrying the \"c-\" prefix"

unfoldable pub check_designator : Text → Result Refusal (Unit {0})
unfolding from_str is_well_formed
check_designator name =
    if is_well_formed (from_str name)
    then ok tt
    else err (new designators_variable name designator_accepted)

module _ (level_of : Text → Option LevelFilter) where
  abbrev level_or_refuse : Text → Option LevelFilter → Result Refusal LevelFilter
  level_or_refuse text none = err (new designators_variable text level_accepted)
  level_or_refuse text (some l) = ok l

  unfoldable pub parse_level : Text → Result Refusal LevelFilter
  parse_level text = level_or_refuse text (level_of text)

  -- The body of the loop, for an item that is split at its first `=`.
  unfoldable pub put_item : Text → Option (Text × Text) → Designators → Result Refusal Designators
  unfolding parse_level check_designator trim
  put_item item none out = do level ← parse_level item; ok (record out { default = some level })
  put_item item (some (name, level)) out = do
    check_designator (trim name)
    l ← parse_level (trim level)
    ok (record out { rules = insert (trim name) l out.rules })

  unfoldable pub put_items : List Text → Designators → Result Refusal Designators
  unfolding put_item split_once
  put_items [] out = ok out
  put_items (item ∷ items) out =
      put_item item (split_once b'=' item) out >>= λ next. put_items items next

  -- The items: parts between commas, trimmed, less the empty ones.
  unfoldable pub items_of : Text → List Text
  unfolding split trim keep
  items_of text = keep (λ i. not (is_empty i)) (map trim (split b',' text))

  abbrev parse_text : Text → Result Refusal Designators
  parse_text text = if is_empty text then ok permissive else put_items (items_of text) no_rules

  unfoldable pub parse : Option Text → Result Refusal Designators
  unfolding put_items items_of trim
  parse none = ok permissive
  parse (some value) = parse_text (trim value)

abbrev pub admits_under : Option LevelFilter → LevelFilter → Bool
admits_under (some allowed) level = level_le level allowed
admits_under none level = false

abbrev pub admits_designator : Designators → Option Text → LevelFilter → Bool
admits_designator d none level = true
admits_designator d (some name) level = admits_under (or_else (d.rules name) d.default) level

unfoldable pub admits : Designators → Option Text → LevelFilter → Bool
admits d designator level = if d.unset then true else admits_designator d designator level
