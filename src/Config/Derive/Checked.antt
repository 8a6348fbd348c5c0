-- ===== src/Config/Derive/Checked.antt =====
-- crates/config-derive/src/lib.rs: what holds of every struct that the derive accepts.
use mathlib.Core.List.{Memᴰ}
use common_rust.Prelude.{
  Bool, true, false, ◌||◌, Option, none, some, List, [], ◌∷◌, ◌≡◌, refl, ◌⊎◌, inl, inr, arith, All,
  Elem, ◌==◌, list_eq, nat_eq, Bool-cases, Option-cases, eq_iff, subst,
}
use common_rust.Prelude.Result.{ok, bind-eq-ok}
use common_rust.Prelude.Text.{Text, codes, is_some}
use common_rust.Config.Schema.{Presence, Class, neutral, prod_required, dev_only, Kind}
use common_rust.Config.Class.{deployment_variable, deployment_accepted}
use common_rust.Config.Derive.Attrs.{
  FieldAttrs, root_attrs, is_prefix, RootAttrs, checked_root, root_meta, field_attrs,
}
use common_rust.Config.Derive.Rules.{Shape, class, presence, shape, class_as}
use common_rust.Config.Derive.Expand.{
  kind_of, Leaf, Item, nested, leaf, Expansion, item_of, items_of, has_deployment, expand,
  is_deployment_field, item_as, has_other_key, rooted, bin_or, fields_of, leaf_of, leaf_item,
  item_as, has_other_key,
}
use common_rust.Macros.{fold_attrs, Attribute, SynField, DeriveInput}

-- An option that production requires may be left unset by a developer: it has no default and is
-- optional. One for development alone is off unless it is set.
abbrev pub IsLegal : Class → Presence → Kind → Type 0
IsLegal neutral p k = Unit
IsLegal prod_required p k = p ≡ Presence.optional
IsLegal dev_only p k =
    (p ≡ Presence.optional) ⊎ ((p ≡ Presence.default (codes "false")) × (k ≡ Kind.bool))

abbrev pub IsLegalItem : Item → Type 0
IsLegalItem (nested name ty) = Unit
IsLegalItem (leaf name l) = IsLegal l.class l.presence l.kind

-- What the checks let through, one flag at a time.
module _ (a : FieldAttrs) {c : Class} {p : Presence} where
  prod-optional :
      (s : Shape)
      → class_as true false s a ≡ ok c
      → presence s a ≡ ok p
      → (c ≡ prod_required) × (p ≡ Presence.optional)
  unfolding presence
  prod-optional Shape.bool h k = ground arith
  prod-optional Shape.opt_bool h k = ground arith
  prod-optional (Shape.opt t) h k = ground arith
  prod-optional (Shape.plain t) h k = ground arith

  dev-off :
      (s : Shape)
      → class_as false true s a ≡ ok c
      → presence s a ≡ ok p
      → (c ≡ dev_only)
        × ((p ≡ Presence.optional)
            ⊎ ((p ≡ Presence.default (codes "false")) × (kind_of s ≡ Kind.bool)))
  unfolding presence
  dev-off Shape.bool h k = elim (Option-cases a.default) [
    | inl d ↦ ground (arith, d)
    | inr (t, d) ↦ ground (arith, d, eq_iff t (codes "false"))
  ]
  dev-off Shape.opt_bool h k = ground arith
  dev-off (Shape.opt t) h k = ground arith
  dev-off (Shape.plain t) h k = ground arith

  class_as-IsLegal :
      (s : Shape) (pr dv : Bool)
      → class_as pr dv s a ≡ ok c
      → presence s a ≡ ok p
      → IsLegal c p (kind_of s)
  class_as-IsLegal s false false h k = let e : c ≡ neutral = cc in rw e tt
  class_as-IsLegal s true true h k = cc
  class_as-IsLegal s true false h k = let (e, o) = prod-optional s h k in rw e o
  class_as-IsLegal s false true h k = let (e, l) = dev-off s h k in rw e l

-- A root's own field: required, under one name in every service.
abbrev pub IsDeployment : Leaf → Type 0
IsDeployment l =
    (l.presence ≡ Presence.required)
    × (l.env ≡ some deployment_variable)
    × (l.accepted ≡ some deployment_accepted)

abbrev pub IsRooted : Option (Text × Text) → List Item → Type 0
IsRooted none items = Unit
IsRooted (some (app, bin)) items =
    (is_prefix app ≡ true) × (l : Leaf) × Elem (leaf (codes "deployment") l) items × IsDeployment l

-- What is known of an item that the derive made of a root's field, or of another's.
abbrev Spelled : Bool → Item → Type 0
Spelled is_root (nested name ty) = Unit
Spelled is_root (leaf name l) = is_deployment_field is_root name ≡ true → IsDeployment l

presence-required :
    (s : Shape) (a : FieldAttrs) {p : Presence}
    → a.required ≡ true
    → presence s a ≡ ok p
    → p ≡ Presence.required
unfolding presence
presence-required Shape.bool a r h = ground arith
presence-required Shape.opt_bool a r h = ground arith
presence-required (Shape.opt t) a r h = ground arith
presence-required (Shape.plain t) a r h = ground arith

-- What the derive is sure of, for one item.
record IsSound (is_root : Bool) (item : Item) : Type 0 where
  legal : IsLegalItem item
  spelled : Spelled is_root item

module _ (is_root : Bool) (f : SynField) where
  leaf_item-IsSound :
      (a : FieldAttrs) (b : Bool) {item : Item}
      → leaf_item f a b ≡ ok item
      → ((p : Presence) (c : Class)
          → presence (shape f.ty) a ≡ ok p
          → Spelled is_root (leaf f.ident (leaf_of f a b p c)))
      → IsSound is_root item
  unfolding class
  leaf_item-IsSound a b {item} h spelled =
      let (p, present, later) = bind-eq-ok (presence (shape f.ty) a) _ h in
      let (c, classed, done) = bind-eq-ok (class (shape f.ty) a) _ later in
      let made : leaf f.ident (leaf_of f a b p c) ≡ item = cc in
      subst (IsSound is_root) made (record {
        legal = class_as-IsLegal a (shape f.ty) a.prod_required a.dev_only classed present;
        spelled = spelled p c present;
      })

  item_as-IsSound :
      (n d : Bool) (a : FieldAttrs) {item : Item}
      → is_deployment_field is_root f.ident ≡ d
      → item_as n d f a ≡ ok item
      → IsSound is_root item
  item_as-IsSound true d a {item} e h = elim (Bool-cases (has_other_key a)) [
    | inl k ↦ absurd (cc (h, k))
    | inr k ↦
        let made : nested f.ident f.ty ≡ item = cc (h, k) in
        subst (IsSound is_root) made (record { legal = tt; spelled = tt })
  ]
  item_as-IsSound false true a e h = elim (Bool-cases (is_some a.default || is_some a.accepted)) [
    | inl k ↦ absurd (cc (h, k))
    | inr k ↦
        let b : FieldAttrs = record a { required = true; env = some deployment_variable } in
        leaf_item-IsSound b true (rw k at h)
          (λ p c present _. (presence-required (shape f.ty) b refl present, refl, refl))
  ]
  item_as-IsSound false false a e h =
      leaf_item-IsSound a false h (λ p c present e'. absurd (cc (e, e')))

items_of-IsSound :
    (is_root : Bool) (fields : List SynField) {items : List Item}
    → items_of is_root fields ≡ ok items
    → All (IsSound is_root) items
unfolding items_of item_of
items_of-IsSound is_root [] {items} h =
    let e : [] ≡ items = cc in subst (All (IsSound is_root)) e tt
items_of-IsSound is_root (f ∷ fs) {items} h =
    let (a, _, h1) = bind-eq-ok (field_attrs f.attrs) _ h in
    let (item, made, h2) = bind-eq-ok (item_of is_root f a) _ h1 in
    let (rest, more, done) = bind-eq-ok (items_of is_root fs) _ h2 in
    let e : (item ∷ rest) ≡ items = cc in
    subst (All (IsSound is_root)) e
      (item_as-IsSound is_root f a.nested _ a refl made, items_of-IsSound is_root fs more)

-- The struct is one that the pipeline can load: each of its options is legal for its class, and a
-- root has its own prefix and a deployment field that it reads as every service does.
pub record IsChecked (e : Expansion) : Type 0 where
  pub legal : All IsLegalItem e.items
  pub rooted : IsRooted e.root e.items

has_deployment-IsDeployment :
    (items : List Item)
    → All (IsSound true) items
    → has_deployment items ≡ true
    → (l : Leaf) × Elem (leaf (codes "deployment") l) items × IsDeployment l
unfolding has_deployment
has_deployment-IsDeployment [] _ h = cc
has_deployment-IsDeployment (nested name ty ∷ items) (s, ss) h =
    let (l, m, d) = has_deployment-IsDeployment items ss h in (l, Memᴰ.tail m, d)
has_deployment-IsDeployment (leaf name l ∷ items) (s, ss) h =
    elim (Bool-cases (name == codes "deployment")) [
      | inl e ↦
          let same : name ≡ codes "deployment" = (eq_iff name (codes "deployment")).0 e in
          (l, Memᴰ.head (rw same refl), s.spelled e)
      | inr e ↦
          let (l', m, d) = has_deployment-IsDeployment items ss (rw e at h) in (l', Memᴰ.tail m, d)
    ]

All-legal : (b : Bool) (items : List Item) → All (IsSound b) items → All IsLegalItem items
All-legal b [] _ = tt
All-legal b (item ∷ items) (s, ss) = (s.legal, All-legal b items ss)

-- The prefix of what `root_attrs` returns.
abbrev HasPrefix : Option Text → Type 0
HasPrefix none = Unit
HasPrefix (some app) = is_prefix app ≡ true

checked_root-HasPrefix :
    (out r : RootAttrs) (app bin : Option Text)
    → out.app ≡ app
    → checked_root out app bin ≡ ok r
    → HasPrefix r.app
checked_root-HasPrefix out r none none a h = let e : r.app ≡ none = cc (h, a) in rw e tt
checked_root-HasPrefix out r none (some bin) a h = cc
checked_root-HasPrefix out r (some app) bin a h = elim (Bool-cases (is_prefix app)) [
  | inl p ↦ let same : ok out ≡ ok r = rw p at h in let e : r.app ≡ some app = cc in rw e p
  | inr p ↦ absurd (cc (h, p))
]

root_attrs-HasPrefix :
    (attrs : List Attribute) {r : RootAttrs} → root_attrs attrs ≡ ok r → HasPrefix r.app
unfolding root_attrs
root_attrs-HasPrefix attrs {r} h =
    let (out, _, checked) =
      bind-eq-ok (fold_attrs (codes "config") root_meta attrs (record { app = none; bin = none })) _
        h in
    checked_root-HasPrefix out r out.app out.bin refl checked

rooted-IsChecked :
    (r : RootAttrs) (items : List Item) (app : Option Text) {e : Expansion}
    → HasPrefix app
    → All (IsSound (is_some app)) items
    → rooted r items app ≡ ok e
    → IsChecked e
rooted-IsChecked r items none {e} _ sound h =
    let made : (record { items = items; root = none }) ≡ e = cc in
    subst IsChecked made (record { legal = All-legal false items sound; rooted = tt })
rooted-IsChecked r items (some app) {e} prefix sound h = elim (Bool-cases (has_deployment items)) [
  | inl d ↦
      let made : (record { items = items; root = some (app, bin_or app r.bin) }) ≡ e = cc (h, d) in
      let (l, m, deployment) = has_deployment-IsDeployment items sound d in
      subst IsChecked made
        (record { legal = All-legal true items sound; rooted = (prefix, l, m, deployment) })
  | inr d ↦ absurd (cc (h, d))
]

-- Whatever struct the derive accepts, in its expansion an option that production requires is optional,
-- one for development alone is optional or a flag that is false by default, and a root has a prefix of
-- ASCII letters and digits and a deployment field that is required, read from DEPLOYMENT_TYPE and
-- described by the shared text.
pub expand-IsChecked : (input : DeriveInput) {e : Expansion} → expand input ≡ ok e → IsChecked e
unfolding expand
expand-IsChecked input h =
    let (r, rooted_attrs, h1) = bind-eq-ok (root_attrs input.attrs) _ h in
    let (fields, _, h2) = bind-eq-ok (fields_of input.items) _ h1 in
    let (items, made, h3) = bind-eq-ok (items_of (is_some r.app) fields) _ h2 in
    rooted-IsChecked r items r.app (root_attrs-HasPrefix input.attrs rooted_attrs)
      (items_of-IsSound (is_some r.app) fields made) h3
