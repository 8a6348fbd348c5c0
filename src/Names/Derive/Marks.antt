-- ===== src/Names/Derive/Marks.antt =====
-- crates/names-derive/src/lib.rs: what the attributes of a field and of a struct say, by their last
-- key.
use common_rust.Prelude.{
  Option, none, some, List, [], ◌∷◌, ◌++◌, ◌==◌, list_eq, nat_eq, if◌then◌else◌, ◌≡◌, ◌⊎◌, ◌↔◌, inl,
  inr, refl, Bool-cases, eq_iff, arith, subst, ap, ◌∙◌,
}
use common_rust.Prelude.Result.{Result, ok, bind-eq-ok}
use common_rust.Prelude.Text.{Text, codes}
use common_rust.Macros.{
  Attribute, keyed, doc, Meta, MetaValue, flag, literal, expression, list, MacroError, metas_for,
  fold_metas, fold_attrs, text_value,
}
use common_rust.Names.Deltas.{NameKind, user, group}
use common_rust.Names.Derive.{kind_meta, table_meta, table_or_refuse, table_attr, field_kind}

-- The keys in the attributes of a name, in their order.
abbrev pub own_keys : Text → Attribute → List Meta
own_keys helper (doc t) = []
own_keys helper (keyed name none) = []
own_keys helper (keyed name (some keys)) = if name == helper then keys else []

abbrev pub keys_of : Text → List Attribute → List Meta
keys_of helper [] = []
keys_of helper (attr ∷ attrs) = own_keys helper attr ++ keys_of helper attrs

abbrev pub or_last : Meta → Option Meta → Option Meta
or_last m none = some m
or_last m (some later) = some later

-- The last key of some.
abbrev pub last : List Meta → Option Meta
last [] = none
last (m ∷ ms) = or_last m (last ms)

abbrev pub IsWord : NameKind → Text → Type 0
IsWord user key = key ≡ codes "user"
IsWord group key = key ≡ codes "group"

-- The last key of the `#[name(…)]` attributes is the word of the kind.
abbrev pub HasMark : List Attribute → NameKind → Type 0
HasMark attrs kind = (m : Meta) × (last (keys_of (codes "name") attrs) ≡ some m) × IsWord kind m.key

-- The last key of the `#[names(…)]` attributes gives the table.
abbrev pub HasTable : List Attribute → Text → Type 0
HasTable attrs table =
    (m : Meta) × (last (keys_of (codes "names") attrs) ≡ some m)
    × (m.key ≡ codes "table")
    × (m.value ≡ literal table)

last-append-none : (ms ns : List Meta) → last ns ≡ none → last (ms ++ ns) ≡ last ms
last-append-none [] ns h = h
last-append-none (m ∷ ms) ns h = ap (or_last m) (last-append-none ms ns h)

last-append-some : (ms ns : List Meta) (m : Meta) → last ns ≡ some m → last (ms ++ ns) ≡ some m
last-append-some [] ns m h = h
last-append-some (n ∷ ms) ns m h = rw (last-append-some ms ns m h) refl

module _ {B : Type 0} (f : Meta → Option B → Result MacroError (Option B))
    (Means : Meta → B → Type 0)
    (step : (m : Meta) (a b : Option B) → f m a ≡ ok b → (x : B) × (b ≡ some x) × Means m x) where
  -- What is left after some keys is what the last one means.
  abbrev Ends : List Meta → Option B → Option B → Type 0
  Ends ms a b =
      ((last ms ≡ none) × (b ≡ a))
      ⊎ ((m : Meta) × (x : B) × (last ms ≡ some m) × (b ≡ some x) × Means m x)

  Ends-append :
      (ms ns : List Meta) (a b c : Option B) → Ends ms a b → Ends ns b c → Ends (ms ++ ns) a c
  Ends-append ms ns a b c (inl (e, same)) (inl (e', same')) =
      inl (last-append-none ms ns e' ∙ e, same' ∙ same)
  Ends-append ms ns a b c (inr (m, x, e, is, means)) (inl (e', same')) =
      inr (m, x, last-append-none ms ns e' ∙ e, same' ∙ is, means)
  Ends-append ms ns a b c first (inr (m, x, e, is, means)) =
      inr (m, x, last-append-some ms ns m e, is, means)

  fold_metas-Ends : (ms : List Meta) (a b : Option B) → fold_metas f ms a ≡ ok b → Ends ms a b
  unfolding fold_metas
  fold_metas-Ends [] a b h = inl (refl, cc h)
  fold_metas-Ends (m ∷ ms) a b h =
      let (mid, one, more) = bind-eq-ok (f m a) (fold_metas f ms) h in
      let (x, is, means) = step m a mid one in
      Ends-append (m ∷ []) ms a mid b (inr (m, x, refl, is, means)) (fold_metas-Ends ms mid b more)

  own_keys-metas_for :
      (helper : Text) (attr : Attribute) (ms : List Meta)
      → metas_for helper attr ≡ ok ms
      → ms ≡ own_keys helper attr
  own_keys-metas_for helper (doc t) ms h = cc h
  own_keys-metas_for helper (keyed name none) ms h = elim (Bool-cases (name == helper)) [
    | inl e ↦ absurd (cc (rw e at h))
    | inr e ↦ cc (rw e at h)
  ]
  own_keys-metas_for helper (keyed name (some keys)) ms h = elim (Bool-cases (name == helper)) [
    | inl e ↦ rw e (cc (rw e at h))
    | inr e ↦ rw e (cc (rw e at h))
  ]

  fold_attrs-Ends :
      (helper : Text) (attrs : List Attribute) (a b : Option B)
      → fold_attrs helper f attrs a ≡ ok b
      → Ends (keys_of helper attrs) a b
  unfolding fold_attrs
  fold_attrs-Ends helper [] a b h = inl (refl, cc h)
  fold_attrs-Ends helper (attr ∷ attrs) a b h =
      let (ms, keys, h1) = bind-eq-ok (metas_for helper attr) _ h in
      let (mid, one, more) = bind-eq-ok (fold_metas f ms a) (fold_attrs helper f attrs) h1 in
      let own =
        subst (λ ms. Ends ms a mid) (own_keys-metas_for helper attr ms keys)
          (fold_metas-Ends ms a mid one) in
      Ends-append (own_keys helper attr) (keys_of helper attrs) a mid b own
        (fold_attrs-Ends helper attrs mid b more)

kind_meta-IsWord :
    (m : Meta) (a b : Option NameKind)
    → kind_meta m a ≡ ok b
    → (k : NameKind) × (b ≡ some k) × IsWord k m.key
kind_meta-IsWord m a b h = elim (Bool-cases (m.key == codes "user")) [
  | inl e ↦ (user, ground (arith, h, e), (eq_iff m.key (codes "user")).0 e)
  | inr e ↦ elim (Bool-cases (m.key == codes "group")) [
    | inl g ↦ (group, ground (arith, h, e, g), (eq_iff m.key (codes "group")).0 g)
    | inr g ↦ absurd (ground (arith, h, e, g))
  ]
]

IsWord-functional : (j k : NameKind) (key : Text) → IsWord j key → IsWord k key → j ≡ k
IsWord-functional user user key _ _ = refl
IsWord-functional user group key h h' = absurd (cc)
IsWord-functional group user key h h' = absurd (cc)
IsWord-functional group group key _ _ = refl

pub field_kind-HasMark :
    (attrs : List Attribute) (o : Option NameKind) (k : NameKind)
    → field_kind attrs ≡ ok o
    → (o ≡ some k) ↔ HasMark attrs k
unfolding field_kind
field_kind-HasMark attrs o k h =
    elim (fold_attrs-Ends kind_meta (λ m k. IsWord k m.key) kind_meta-IsWord (codes "name") attrs
      none o h) [
        | inl (e, is) ↦ (λ s. absurd (cc (is, s)), λ (m, e', w). absurd (cc (e, e')))
        | inr (m, x, e, is, w) ↦ (
          λ s. (m, e, subst (λ k. IsWord k m.key) (cc (is, s)) w),
          λ (m', e', w').
              (let same : m ≡ m' = cc (e, e') in
                is
                ∙ ap some (
                    IsWord-functional x k m'.key (subst (λ (m : Meta). IsWord x m.key) same w) w')),
        )
      ]

table_meta-literal :
    (m : Meta) (a b : Option Text)
    → table_meta m a ≡ ok b
    → (t : Text) × (b ≡ some t) × ((m.key ≡ codes "table") × (m.value ≡ literal t))
table_meta-literal m a b h = elim (Bool-cases (m.key == codes "table")) [
  | inl e ↦
      let (t, is, made) = bind-eq-ok (text_value m.value) _ (rw e at h) in
      (t, cc made, ((eq_iff m.key (codes "table")).0 e, text_value-literal m.value t is))
  | inr e ↦ absurd (ground (arith, h, e))
]
  where
    text_value-literal : (v : MetaValue) (t : Text) → text_value v ≡ ok t → v ≡ literal t
    text_value-literal (literal s) t is = cc
    text_value-literal flag t is = absurd (cc)
    text_value-literal expression t is = absurd (cc)
    text_value-literal list t is = absurd (cc)

table_or_refuse-eq-ok : (o : Option Text) (t : Text) → table_or_refuse o ≡ ok t → o ≡ some t
table_or_refuse-eq-ok none t h = absurd (cc)
table_or_refuse-eq-ok (some s) t h = cc

pub table_attr-HasTable :
    (attrs : List Attribute) (table : Text) → table_attr attrs ≡ ok table → HasTable attrs table
unfolding table_attr
table_attr-HasTable attrs table h =
    let (o, read, given) = bind-eq-ok (fold_attrs (codes "names") table_meta attrs none) _ h in
    let is_some : o ≡ some table = table_or_refuse-eq-ok o table given in
    elim (fold_attrs-Ends table_meta (λ m t. (m.key ≡ codes "table") × (m.value ≡ literal t))
      table_meta-literal (codes "names") attrs none o read) [
        | inl (e, is) ↦ absurd (cc (is, is_some))
        | inr (m, t, e, is, (key, value)) ↦ (m, e, key, value ∙ ap literal (cc (is, is_some)))
      ]
