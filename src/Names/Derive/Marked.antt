-- ===== src/Names/Derive/Marked.antt =====
-- crates/names-derive/src/lib.rs: which columns are in the table that the derive makes.
use common_rust.Prelude.{
  Option, none, some, List, [], ◌∷◌, ◌≡◌, ◌↔◌, Elem, refl, ap, ◌∙◌, subst, All, All-Elem,
}
use mathlib.Core.List.{Memᴰ}
use common_rust.Prelude.Result.{ok, bind-eq-ok}
use common_rust.Prelude.Text.{Text}
use common_rust.Macros.{SynField, SynData, named_struct, other_data, DeriveInput}
use common_rust.Names.Deltas.{NameKind, NameTarget}
use common_rust.Names.Derive.Marks.{HasMark, HasTable, field_kind-HasMark, table_attr-HasTable}
use common_rust.Names.Derive.{
  table_attr, field_kind, with_target, targets_of, fields_of, name_targets,
}

-- The target is a column of the table whose field is marked: the last key of its `#[name(…)]`
-- attributes is `user` or `group`, as the target's kind is.
abbrev pub IsMarked : Text → List SynField → NameTarget → Type 0
IsMarked table fields t =
    (f : SynField) × Elem f fields
    × HasMark f.attrs t.kind
    × (t ≡ record { table = table; column = f.ident; kind = t.kind })

-- The same as the code reads the field.
abbrev IsRead : Text → List SynField → NameTarget → Type 0
IsRead table fields t =
    (f : SynField) × Elem f fields
    × (field_kind f.attrs ≡ ok (some t.kind))
    × (t ≡ record { table = table; column = f.ident; kind = t.kind })

module _ (table : Text) where
  IsRead-later :
      (f : SynField) (fs : List SynField) (t : NameTarget)
      → IsRead table fs t
      → IsRead table (f ∷ fs) t
  IsRead-later f fs t (g, m, k, e) = (g, Memᴰ.tail m, k, e)

  abbrev target : SynField → NameKind → NameTarget
  target f kind = record { table = table; column = f.ident; kind = kind }

  module _ (f : SynField) (fs : List SynField) (rest : List NameTarget) (t : NameTarget) where
    -- One field more.
    unmarked :
        field_kind f.attrs ≡ ok none
        → (IsRead table fs t → Elem t rest)
        → (g : SynField) → Elem g (f ∷ fs)
        → field_kind g.attrs ≡ ok (some t.kind)
        → t ≡ target g t.kind
        → Elem t rest
    unmarked read from g (Memᴰ.head same) k e =
        absurd (cc (read, k, ap (λ (f : SynField). field_kind f.attrs) same))
    unmarked read from g (Memᴰ.tail m) k e = from (g, m, k, e)

    marked :
        (kind : NameKind)
        → field_kind f.attrs ≡ ok (some kind)
        → (IsRead table fs t → Elem t rest)
        → (g : SynField) → Elem g (f ∷ fs)
        → field_kind g.attrs ≡ ok (some t.kind)
        → t ≡ target g t.kind
        → Elem t (target f kind ∷ rest)
    marked kind read from g (Memᴰ.head same) k e =
        let of_kind : t.kind ≡ kind =
          cc (read, k, ap (λ (f : SynField). field_kind f.attrs) same) in
        Memᴰ.head (e ∙ cc (same, of_kind))
    marked kind read from g (Memᴰ.tail m) k e = Memᴰ.tail (from (g, m, k, e))

    found :
        (kind : NameKind)
        → field_kind f.attrs ≡ ok (some kind)
        → (Elem t rest → IsRead table fs t)
        → Elem t (target f kind ∷ rest)
        → IsRead table (f ∷ fs) t
    found kind read to (Memᴰ.head e) =
        let of_kind : t.kind ≡ kind = ap (λ (t : NameTarget). t.kind) e in
        (f, Memᴰ.head refl, cc (read, of_kind), e ∙ cc (of_kind))
    found kind read to (Memᴰ.tail m) = IsRead-later f fs t (to m)

    with_target-IsRead :
        (kind : Option NameKind)
        → field_kind f.attrs ≡ ok kind
        → (Elem t rest ↔ IsRead table fs t)
        → Elem t (with_target table f.ident kind rest) ↔ IsRead table (f ∷ fs) t
    with_target-IsRead none read (to, from) =
        (λ m. IsRead-later f fs t (to m), λ (g, m, k, e). unmarked read from g m k e)
    with_target-IsRead (some kind) read (to, from) =
        (found kind read to, λ (g, m, k, e). marked kind read from g m k e)

  targets_of-IsRead :
      (fields : List SynField) (targets : List NameTarget) (t : NameTarget)
      → targets_of table fields ≡ ok targets
      → Elem t targets ↔ IsRead table fields t
  unfolding targets_of
  targets_of-IsRead [] targets t h =
      let e : [] ≡ targets = cc in
      subst (λ (l : List NameTarget). Elem t l ↔ IsRead table [] t) e
        (λ m. elim m [ ], λ (g, m, _, _). elim m [ ])
  targets_of-IsRead (f ∷ fs) targets t h =
      let (kind, read, h1) = bind-eq-ok (field_kind f.attrs) _ h in
      let (rest, more, done) = bind-eq-ok (targets_of table fs) _ h1 in
      let made : with_target table f.ident kind rest ≡ targets = cc in
      subst (λ (l : List NameTarget). Elem t l ↔ IsRead table (f ∷ fs) t) made
        (with_target-IsRead f fs rest t kind read (targets_of-IsRead fs rest t more))

-- The attributes of every field are read, whatever they say.
abbrev IsReadable : SynField → Type 0
IsReadable f = (o : Option NameKind) × (field_kind f.attrs ≡ ok o)

targets_of-IsReadable :
    (table : Text) (fields : List SynField) (targets : List NameTarget)
    → targets_of table fields ≡ ok targets
    → All IsReadable fields
unfolding targets_of
targets_of-IsReadable table [] targets h = tt
targets_of-IsReadable table (f ∷ fs) targets h =
    let (kind, read, h1) = bind-eq-ok (field_kind f.attrs) _ h in
    let (rest, more, done) = bind-eq-ok (targets_of table fs) _ h1 in
    ((kind, read), targets_of-IsReadable table fs rest more)

IsRead-IsMarked :
    (table : Text) (fields : List SynField) (t : NameTarget)
    → All IsReadable fields
    → IsRead table fields t ↔ IsMarked table fields t
IsRead-IsMarked table fields t readable = (
  λ (f, m, k, e). (f, m, (field_kind-HasMark f.attrs _ t.kind k).0 refl, e),
  λ (f, m, mark, e).
      (let (o, read) = All-Elem IsReadable fields readable m in
        (f, m, read ∙ ap ok ((field_kind-HasMark f.attrs o t.kind read).1 mark), e)),
)

fields_of-eq-ok :
    (items : SynData) (fields : List SynField)
    → fields_of items ≡ ok fields
    → items ≡ named_struct fields
fields_of-eq-ok (named_struct fs) fields h = cc
fields_of-eq-ok other_data fields h = absurd (cc)

-- The table that the derive makes for a struct with named fields has exactly the columns whose
-- fields are marked `user` or `group`, each with the kind of its last mark, under the name that the
-- last `table` of the struct's `#[names(…)]` gives.
pub name_targets-IsMarked :
    (input : DeriveInput) {targets : List NameTarget}
    → name_targets input ≡ ok targets
    → (table : Text) × (fields : List SynField) × HasTable input.attrs table
      × (input.items ≡ named_struct fields)
      × ((t : NameTarget) → Elem t targets ↔ IsMarked table fields t)
unfolding name_targets
name_targets-IsMarked input {targets} h =
    let (table, named, h1) = bind-eq-ok (table_attr input.attrs) _ h in
    let (fields, given, made) = bind-eq-ok (fields_of input.items) _ h1 in
    let readable = targets_of-IsReadable table fields targets made in
    (
      table,
      fields,
      table_attr-HasTable input.attrs table named,
      fields_of-eq-ok input.items fields given,
      λ t.
          (let (to, from) = targets_of-IsRead table fields targets t made in
            let (mark, unmark) = IsRead-IsMarked table fields t readable in
            (λ m. mark (to m), λ is. from (unmark is))),
    )
