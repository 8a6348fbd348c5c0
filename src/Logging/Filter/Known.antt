-- ===== src/Logging/Filter/Known.antt =====
-- Which designators the rules of a filter are for.
use common_rust.Prelude.{
  Bool, true, false, Option, none, some, List, [], ◌∷◌, ◌==◌, list_eq, nat_eq, ◌≡◌, refl, arith,
  Bool-cases, inl, inr, ◌∙◌, ap, eq_iff, subst,
}
use common_rust.Prelude.Dict.{insert}
use common_rust.Prelude.Result.{ok, bind-eq-ok}
use common_rust.Prelude.Text.{Text, is_empty, trim, split_once}
use common_rust.Logging.Designator.{from_str, is_well_formed}
use common_rust.Logging.Filter.{
  LevelFilter, Designators, no_rules, permissive, check_designator, parse_level, put_item,
  put_items, items_of, parse_text, parse,
}

check_designator-eq-ok :
    (name : Text) → check_designator name ≡ ok tt → is_well_formed (from_str name) ≡ true
unfolding check_designator
check_designator-eq-ok name h = ground arith

module _ (level_of : Text → Option LevelFilter) where
  item_known :
      (item : Text) (parts : Option (Text × Text)) (out d : Designators) (name : Text)
      {l : LevelFilter}
      → ((k : LevelFilter) → out.rules name ≡ some k → is_well_formed (from_str name) ≡ true)
      → put_item level_of item parts out ≡ ok d
      → d.rules name ≡ some l
      → is_well_formed (from_str name) ≡ true
  unfolding put_item
  item_known item none out d name {l} known h r =
      let (k, read, done) = bind-eq-ok (parse_level level_of item) _ h in
      let same : record out { default = some k } ≡ d = cc done in
      known l (ap (λ (x : Designators). x.rules name) same ∙ r)
  item_known item (some (n, text)) out d name {l} known h r =
      let (_, checked, later) = bind-eq-ok (check_designator (trim n)) _ h in
      let (k, read, done) = bind-eq-ok (parse_level level_of (trim text)) _ later in
      let same : record out { rules = insert (trim n) k out.rules } ≡ d = cc done in
      let at_name : insert (trim n) k out.rules name ≡ some l =
        ap (λ (x : Designators). x.rules name) same ∙ r in
      elim (Bool-cases (trim n == name)) [
        | inl hit ↦
            subst (λ (x : Text). is_well_formed (from_str x) ≡ true) ((eq_iff (trim n) name).0 hit)
              (check_designator-eq-ok (trim n) checked)
        | inr miss ↦ known l (ground (arith, at_name, miss))
      ]

  items_known :
      (items : List Text) (out d : Designators) (name : Text) {l : LevelFilter}
      → ((k : LevelFilter) → out.rules name ≡ some k → is_well_formed (from_str name) ≡ true)
      → put_items level_of items out ≡ ok d
      → d.rules name ≡ some l
      → is_well_formed (from_str name) ≡ true
  unfolding put_items
  items_known [] out d name {l} known h r =
      let same : out ≡ d = cc h in known l (ap (λ (x : Designators). x.rules name) same ∙ r)
  items_known (item ∷ items) out d name {l} known h r =
      let (next, first, later) =
        bind-eq-ok (put_item level_of item (split_once b'=' item) out) _ h in
      items_known items next d name
        (λ k e. item_known item (split_once b'=' item) out next name known first e) later r

  text_known :
      (text : Text) (blank : Bool) (d : Designators) (name : Text) {l : LevelFilter}
      → is_empty text ≡ blank
      → parse_text level_of text ≡ ok d
      → d.rules name ≡ some l
      → is_well_formed (from_str name) ≡ true
  text_known text true d name {l} b h r =
      let same : permissive ≡ d = ground (arith, b, h) in
      let no_rule : none ≡ d.rules name = ap (λ (x : Designators). x.rules name) same in
      absurd (cc (no_rule, r))
  text_known text false d name b h r =
      items_known (items_of level_of text) no_rules d name (λ k e. absurd (cc e))
        (ground (arith, b, h)) r

  -- Every rule of a filter that a value is read as is for a designator that is well formed.
  pub parse_rule_known :
      (value : Option Text) (d : Designators) (name : Text) (l : LevelFilter)
      → parse level_of value ≡ ok d
      → d.rules name ≡ some l
      → is_well_formed (from_str name) ≡ true
  unfolding parse
  parse_rule_known none d name l h r =
      let same : permissive ≡ d = cc h in
      let no_rule : none ≡ d.rules name = ap (λ (x : Designators). x.rules name) same in
      absurd (cc (no_rule, r))
  parse_rule_known (some value) d name l h r = text_known (trim value) _ d name refl h r
