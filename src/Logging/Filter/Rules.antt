-- ===== src/Logging/Filter/Rules.antt =====
-- What a filter that is read from a text admits, read off the items of the text.
use common_rust.Prelude.{
  Bool, true, false, Option, none, some, List, [], ◌∷◌, ◌==◌, list_eq, nat_eq, if◌then◌else◌, ◌≡◌,
  ◌↔◌, ◌⊎◌, refl, arith, Bool-cases, inl, inr, ◌∙◌, ap, sym,
}
use common_rust.Prelude.Dict.{insert, or_else, or_else-none}
use common_rust.Prelude.Result.{ok, bind-eq-ok}
use common_rust.Prelude.Text.{Text, is_empty, trim, split_once}
use common_rust.Logging.Filter.{
  LevelFilter, off, error, warn, info, debug, trace, level_le, Designators, no_rules, permissive,
  check_designator, level_or_refuse, parse_level, put_item, put_items, items_of, parse_text, parse,
  admits_under, admits,
}

-- Where a level is set, events of it are written and those of the more severe levels; `off`, which no
-- event has, is below all of them.
abbrev pub WrittenAt : LevelFilter → LevelFilter → Type 0
WrittenAt off level = level ≡ off
WrittenAt error level = (level ≡ error) ⊎ (level ≡ off)
WrittenAt warn level = (level ≡ warn) ⊎ ((level ≡ error) ⊎ (level ≡ off))
WrittenAt info level = (level ≡ info) ⊎ ((level ≡ warn) ⊎ ((level ≡ error) ⊎ (level ≡ off)))
WrittenAt debug level =
    (level ≡ debug) ⊎ ((level ≡ info) ⊎ ((level ≡ warn) ⊎ ((level ≡ error) ⊎ (level ≡ off))))
WrittenAt trace level =
    (level ≡ trace)
    ⊎ ((level ≡ debug) ⊎ ((level ≡ info) ⊎ ((level ≡ warn) ⊎ ((level ≡ error) ⊎ (level ≡ off)))))

abbrev pub IsWritten : Option LevelFilter → LevelFilter → Type 0
IsWritten none level = ⊥
IsWritten (some set) level = WrittenAt set level

level_le-WrittenAt : (set level : LevelFilter) → (level_le level set ≡ true) ↔ WrittenAt set level
level_le-WrittenAt off level = ground arith
level_le-WrittenAt error level = ground arith
level_le-WrittenAt warn level = ground arith
level_le-WrittenAt info level = ground arith
level_le-WrittenAt debug level = ground arith
level_le-WrittenAt trace level = ground arith

blank_or-IsWritten :
    (text : Text) (set : Option LevelFilter) (level : LevelFilter)
    → ((if is_empty text then true else admits_under set level) ≡ true)
      ↔ ((text ≡ []) ⊎ IsWritten set level)
blank_or-IsWritten [] set level = (λ _. inl refl, λ _. refl)
blank_or-IsWritten (c ∷ text) none level = ground arith
blank_or-IsWritten (c ∷ text) (some set) level =
    let (to, from) = level_le-WrittenAt set level in
    (λ h. inr (to h), λ h. elim h [ inl e ↦ absurd (cc e) | inr w ↦ from w ])

module _ (level_of : Text → Option LevelFilter) where
  level_or_refuse-eq-ok :
      (text : Text) (o : Option LevelFilter) {l : LevelFilter}
      → level_or_refuse level_of text o ≡ ok l
      → o ≡ some l
  level_or_refuse-eq-ok text none h = cc
  level_or_refuse-eq-ok text (some l) h = cc

  parse_level-eq-ok :
      (text : Text) {l : LevelFilter} → parse_level level_of text ≡ ok l → level_of text ≡ some l
  unfolding parse_level
  parse_level-eq-ok text h = level_or_refuse-eq-ok text _ h

  -- The level that an item gives a designator, and the one that it gives all the others.
  abbrev pub rule_of : Text → Option (Text × Text) → Option LevelFilter
  rule_of name none = none
  rule_of name (some (n, level)) = if trim n == name then level_of (trim level) else none

  abbrev pub level_in : Text → Option (Text × Text) → Option LevelFilter
  level_in item none = level_of item
  level_in item (some _) = none

  -- The last items that give such a level.
  abbrev pub last_rule : Text → List Text → Option LevelFilter
  last_rule name [] = none
  last_rule name (item ∷ items) =
      or_else (last_rule name items) (rule_of name (split_once b'=' item))

  abbrev pub last_level : List Text → Option LevelFilter
  last_level [] = none
  last_level (item ∷ items) = or_else (last_level items) (level_in item (split_once b'=' item))

  record Follows (out d : Designators) (rule : Option LevelFilter) (level : Option LevelFilter)
      (name : Text) : Type 0 where
    same_rule : d.rules name ≡ or_else rule (out.rules name)
    same_level : d.default ≡ or_else level out.default
    same_unset : d.unset ≡ out.unset

  put_item-Follows :
      (item : Text) (parts : Option (Text × Text)) (out d : Designators) (name : Text)
      → put_item level_of item parts out ≡ ok d
      → Follows out d (rule_of name parts) (level_in item parts) name
  unfolding put_item
  put_item-Follows item none out d name h =
      let (l, read, done) = bind-eq-ok (parse_level level_of item) _ h in
      let level = parse_level-eq-ok item read in
      record { same_rule = cc done; same_level = cc (done, level); same_unset = cc done }
  put_item-Follows item (some (n, text)) out d name h =
      let (_, known, later) = bind-eq-ok (check_designator (trim n)) _ h in
      let (l, read, done) = bind-eq-ok (parse_level level_of (trim text)) _ later in
      let level = parse_level-eq-ok (trim text) read in
      let same : record out { rules = insert (trim n) l out.rules } ≡ d = cc done in
      let at_name : insert (trim n) l out.rules name ≡ d.rules name =
        ap (λ (x : Designators). x.rules name) same in
      record {
        same_rule = elim (Bool-cases (trim n == name)) [
          | inl hit ↦ ground (arith, at_name, hit, level)
          | inr miss ↦ ground (arith, at_name, miss)
        ];
        same_level = cc;
        same_unset = cc;
      }

  or_else_assoc : (a b c : Option LevelFilter) → or_else a (or_else b c) ≡ or_else (or_else a b) c
  or_else_assoc none b c = refl
  or_else_assoc (some x) b c = refl

  put_items-Follows :
      (items : List Text) (out d : Designators) (name : Text)
      → put_items level_of items out ≡ ok d
      → Follows out d (last_rule name items) (last_level items) name
  unfolding put_items
  put_items-Follows [] out d name h = record {
    same_rule = cc h;
    same_level = cc h;
    same_unset = cc h;
  }
  put_items-Follows (item ∷ items) out d name h =
      let (next, first, later) =
        bind-eq-ok (put_item level_of item (split_once b'=' item) out) _ h in
      let one = put_item-Follows item (split_once b'=' item) out next name first in
      let rest = put_items-Follows items next d name later in
      record {
        same_rule =
            rest.same_rule
            ∙ ap (or_else (last_rule name items)) one.same_rule
            ∙ or_else_assoc (last_rule name items) _ _;
        same_level =
            rest.same_level
            ∙ ap (or_else (last_level items)) one.same_level
            ∙ or_else_assoc (last_level items) _ _;
        same_unset = rest.same_unset ∙ one.same_unset;
      }

  -- What a value says of a designator at a level: all, if it is unset or blank, and otherwise what
  -- the last item for the designator allows, or else the last item without a designator, or else
  -- nothing.
  abbrev pub allowed_by : Option Text → Text → LevelFilter → Bool
  allowed_by none name level = true
  allowed_by (some value) name level =
      if is_empty (trim value)
      then true
      else admits_under
          (or_else (last_rule name (items_of level_of (trim value)))
            (last_level (items_of level_of (trim value))))
          level

  text_step :
      (text : Text) (blank : Bool) (d : Designators) (name : Text) (level : LevelFilter)
      → is_empty text ≡ blank
      → parse_text level_of text ≡ ok d
      → admits d (some name) level ≡ (
          if blank
          then true
          else admits_under
              (or_else
                (last_rule name (items_of level_of text))
                (last_level (items_of level_of text)))
              level)
  unfolding admits
  text_step text true d name level b h =
      let same : permissive ≡ d = ground (arith, b, h) in
      ap (λ (x : Designators). admits x (some name) level) (sym same)
  text_step text false d name level b h =
      let read : put_items level_of (items_of level_of text) no_rules ≡ ok d =
        ground (arith, b, h) in
      let f = put_items-Follows (items_of level_of text) no_rules d name read in
      rw (
        f.same_unset,
        f.same_rule,
        f.same_level,
        or_else-none (last_rule name (items_of level_of text)),
        or_else-none (last_level (items_of level_of text)),
      )

  admits-allowed_by :
      (value : Option Text) (d : Designators) (name : Text) (level : LevelFilter)
      → parse level_of value ≡ ok d
      → admits d (some name) level ≡ allowed_by value name level
  unfolding parse admits
  admits-allowed_by none d name level h =
      let same : permissive ≡ d = cc h in
      ap (λ (x : Designators). admits x (some name) level) (sym same)
  admits-allowed_by (some value) d name level h = text_step (trim value) _ d name level refl h

  -- The value says nothing, or the last item for the designator, or else the last item without one,
  -- gives a level with which the event's level is written.
  abbrev pub IsAllowed : Option Text → Text → LevelFilter → Type 0
  IsAllowed none name level = Unit
  IsAllowed (some value) name level =
      (trim value ≡ [])
      ⊎ IsWritten
          (or_else (last_rule name (items_of level_of (trim value)))
            (last_level (items_of level_of (trim value))))
          level

  allowed_by-IsAllowed :
      (value : Option Text) (name : Text) (level : LevelFilter)
      → (allowed_by value name level ≡ true) ↔ IsAllowed value name level
  allowed_by-IsAllowed none name level = ground arith
  allowed_by-IsAllowed (some value) name level =
      blank_or-IsWritten (trim value)
        (or_else (last_rule name (items_of level_of (trim value)))
          (last_level (items_of level_of (trim value))))
        level

  -- A filter that a value is read as admits an event of a designator at a level exactly when the
  -- value is unset or blank, or the last item for the designator, or else the last item without a
  -- designator, gives a level with which events of that level are written. If no item gives a level,
  -- the event is not admitted.
  pub parse-admits :
      (value : Option Text) (d : Designators) (name : Text) (level : LevelFilter)
      → parse level_of value ≡ ok d
      → (admits d (some name) level ≡ true) ↔ IsAllowed value name level
  parse-admits value d name level h =
      rw (admits-allowed_by value d name level h) (allowed_by-IsAllowed value name level)
