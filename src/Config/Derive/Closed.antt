-- ===== src/Config/Derive/Closed.antt =====
-- crates/config-derive/src/lib.rs: the generated code reads only what its schema registers.
use common_rust.Prelude.{Option, List, [], ◌∷◌, ◌++◌, All, Elem}
use common_rust.Prelude.Text.{Text}
use common_rust.Config.Path.{FieldPath, root, child}
use common_rust.Config.Schema.{Field}
use common_rust.Config.File.{Files}
use common_rust.Config.Values
use common_rust.Config.Values.{Values, Fault}
use common_rust.Config.Class.{Deployment}
use common_rust.Config.Load.{load_from}
use common_rust.Config.Load.NoPanic.{
  IsSafe, Covers, bind-IsSafe, bool-IsSafe, bool_opt-IsSafe, leaf_value-IsSafe, leaf_opt-IsSafe,
  load_from-IsSafe,
}
use common_rust.Config.Derive.Rules.{Shape}
use common_rust.Config.Derive.Expand.{Item, nested, leaf}
use common_rust.Config.Derive.Meaning.{
  Impl, Types, field_of, item_schema, schema, read_leaf, item_value, from_values, root_of,
}

-- Once the impl's schema is registered, its reads do not panic.
abbrev pub IsClosed : {V : Type 0} → Impl V → Type 0
IsClosed i =
    (v : Values) (prefix : FieldPath) → Covers v (i.schema prefix) → IsSafe (i.from_values v prefix)

abbrev pub InnerIsClosed : {V : Type 0} → Types V → Item → Type 0
InnerIsClosed types (nested name ty) = IsClosed (types.impl_of ty)
InnerIsClosed types (leaf name l) = Unit

module _ {V : Type 0} (types : Types V) where
  abbrev pub derived : List Item → Impl (List (Text × V))
  derived items = record { schema = schema types items; from_values = from_values types items }

  module _ (v : Values) (f : Field) (m : Elem f v.fields) where
    read_leaf-IsSafe :
        (s : Shape) (accepted : Option Text) → IsSafe (read_leaf types s accepted v f.path)
    unfolding read_leaf
    read_leaf-IsSafe Shape.bool accepted =
        bind-IsSafe (Values.bool v f.path) _ (bool-IsSafe v f m) (λ _ _. tt)
    read_leaf-IsSafe Shape.opt_bool accepted =
        bind-IsSafe (Values.bool_opt v f.path) _ (bool_opt-IsSafe v f m) (λ _ _. tt)
    read_leaf-IsSafe (Shape.plain ty) accepted =
        leaf_value-IsSafe v f m (types.from_str ty) (types.type_name ty) accepted
    read_leaf-IsSafe (Shape.opt ty) accepted =
        bind-IsSafe (Values.leaf_opt (types.from_str ty) (types.type_name ty) v f.path accepted) _
          (leaf_opt-IsSafe v f m (types.from_str ty) (types.type_name ty) accepted) (λ _ _. tt)

  item_value-IsSafe :
      (item : Item) (v : Values) (prefix : FieldPath)
      → InnerIsClosed types item
      → Covers v (item_schema types item prefix)
      → IsSafe (item_value types item v prefix)
  item_value-IsSafe (nested name ty) v prefix closed c =
      bind-IsSafe ((types.impl_of ty).from_values v (child prefix name)) _
        (closed v (child prefix name) c) (λ _ _. tt)
  item_value-IsSafe (leaf name l) v prefix _ (m, _) =
      bind-IsSafe (read_leaf types l.shape l.accepted v (child prefix name)) _
        (read_leaf-IsSafe v (field_of types l (child prefix name)) m l.shape l.accepted) (λ _ _. tt)

  Covers-append :
      (v : Values) (xs ys : List Field) → Covers v (xs ++ ys) → Covers v xs × Covers v ys
  Covers-append v [] ys c = (tt, c)
  Covers-append v (x ∷ xs) ys (m, c) = let (l, r) = Covers-append v xs ys c in ((m, l), r)

  -- The derive keeps the property of the types that it nests.
  pub derived-IsClosed :
      (items : List Item) → All (InnerIsClosed types) items → IsClosed (derived items)
  unfolding from_values schema
  derived-IsClosed [] _ v prefix c = tt
  derived-IsClosed (item ∷ items) (inner, inners) v prefix c =
      let (here, there) =
        Covers-append v (item_schema types item prefix) (schema types items prefix) c in
      bind-IsSafe (item_value types item v prefix) _ (item_value-IsSafe item v prefix inner here)
        (λ _ _.
          bind-IsSafe (from_values types items v prefix) _
            (derived-IsClosed items inners v prefix there) (λ _ _. tt))

  -- Loading a root that the derive has made never panics, whatever the arguments, the environment
  -- and the files are, when the impls of the types it nests read only what they register.
  pub load_derived-IsSafe :
      (files : Files) (names : Text × Text) (deployment : List (Text × V) → Deployment)
      (items : List Item) (args : List Text) (env : List (Text × Text))
      → All (InnerIsClosed types) items
      → IsSafe (load_from files (root_of types names deployment items) args env)
  unfolding root_of
  load_derived-IsSafe files names deployment items args env inner =
      load_from-IsSafe files (root_of types names deployment items)
        (λ v c. derived-IsClosed items inner v root c) args env
