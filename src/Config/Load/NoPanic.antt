-- ===== src/Config/Load/NoPanic.antt =====
-- A read of a path that the schema never registered panics. What keeps the pipeline from it.
use common_rust.Prelude.{
  Bool, true, false, Option, List, [], ◌∷◌, ◌≡◌, refl, All, All-of_Elem, Elem, subst, list_eq,
  nat_eq, Option-cases, inl, inr, Bool-cases,
}
use common_rust.Prelude.Dict.{collect, empty}
use common_rust.Prelude.Result.{Result, ok, err, ◌>>=◌, bind-eq-ok, Result-cases}
use common_rust.Prelude.Text.{Text, is_some}
use common_rust.Config.Path.{path_eq}
use common_rust.Config.Refusal.{Refusal}
use common_rust.Config.Schema.{Field, Kind, Class, neutral, prod_required, dev_only, Entry}
use common_rust.Config.Args
use common_rust.Config.Args.{Parsed}
use common_rust.Config.File.{Files}
use common_rust.Config.Layers.{merge, with_chosen_file, with_defaults, file_choice}
use common_rust.Config.Values
use common_rust.Config.Values.{Values, Fault, field, parse_bool, parse_bool_entry, parse_text}
use common_rust.Config.Class.{
  Deployment, prod, dev, enabled, enabled_as, check_class, check_all, enforce,
}
use common_rust.Config.Class.Gate.{find_of_Elem}
use common_rust.Config.Load.{Root, lift, finish, after_args, load_from}

-- A result that is no panic.
abbrev pub IsSafe : {A : Type 0} → Result Fault A → Type 0
IsSafe (ok a) = Unit
IsSafe (err (Fault.refused r)) = Unit
IsSafe (err Fault.panicked) = ⊥

-- The fields are registered.
abbrev pub Covers : Values → List Field → Type 0
Covers v fields = All (λ (f : Field). Elem f v.fields) fields

module _ {A B : Type 0} where
  pub bind-IsSafe :
      (m : Result Fault A) (f : A → Result Fault B)
      → IsSafe m
      → ((a : A) → m ≡ ok a → IsSafe (f a))
      → IsSafe (m >>= f)
  bind-IsSafe (ok a) f _ h = h a refl
  bind-IsSafe (err (Fault.refused r)) f _ h = tt
  bind-IsSafe (err Fault.panicked) f s h = s

pub lift-eq-ok : {A : Type 0} (m : Result Refusal A) {a : A} → lift m ≡ ok a → m ≡ ok a
lift-eq-ok (ok a) h = cc
lift-eq-ok (err _) h = cc

lift-IsSafe : {A : Type 0} (m : Result Refusal A) → IsSafe (lift m)
lift-IsSafe (ok a) = tt
lift-IsSafe (err r) = tt

parse_bool_entry-IsSafe : (f : Field) (e : Entry) → IsSafe (parse_bool_entry f e)
unfolding parse_bool_entry
parse_bool_entry-IsSafe f e = elim (Option-cases (parse_bool e.text)) [
  | inl p ↦ rw p tt
  | inr (b, p) ↦ rw p tt
]

module _ {T : Type 0} (from_str : Text → Result Text T) (type_name : Text) where
  parse_text-IsSafe :
      (f : Field) (e : Entry) (accepted : Option Text)
      → IsSafe (parse_text from_str type_name f e accepted)
  unfolding parse_text
  parse_text-IsSafe f e accepted = elim (Result-cases (from_str e.text)) [
    | inl (t, p) ↦ rw (p, IsSafe) tt
    | inr (error, p) ↦ rw (p, IsSafe) tt
  ]

module _ (v : Values) (f : Field) (m : Elem f v.fields) where
  field-IsSafe : IsSafe (field v f.path)
  unfolding field
  field-IsSafe = let (g, found) = find_of_Elem f v.fields m in rw found tt

  pub bool-IsSafe : IsSafe (Values.bool v f.path)
  unfolding Values.bool
  bool-IsSafe = bind-IsSafe (field v f.path) _ field-IsSafe (λ g _.
      elim (Option-cases (v.entries f.path)) [
        | inl e ↦ rw e tt
        | inr (e, p) ↦ rw p (parse_bool_entry-IsSafe g e)
      ])

  pub bool_opt-IsSafe : IsSafe (Values.bool_opt v f.path)
  unfolding Values.bool_opt
  bool_opt-IsSafe = bind-IsSafe (field v f.path) _ field-IsSafe (λ g _.
      elim (Option-cases (v.entries f.path)) [
        | inl e ↦ rw e tt
        | inr (e, p) ↦
            rw p (bind-IsSafe (parse_bool_entry g e) _ (parse_bool_entry-IsSafe g e) (λ _ _. tt))
      ])

  module _ {T : Type 0} (from_str : Text → Result Text T) (type_name : Text)
      (accepted : Option Text) where
    pub leaf_value-IsSafe : IsSafe (Values.leaf_value from_str type_name v f.path accepted)
    unfolding Values.leaf_value
    leaf_value-IsSafe = bind-IsSafe (field v f.path) _ field-IsSafe (λ g _.
        elim (Option-cases (v.entries f.path)) [
          | inl e ↦ rw e tt
          | inr (e, p) ↦ rw p (parse_text-IsSafe from_str type_name g e accepted)
        ])

    pub leaf_opt-IsSafe : IsSafe (Values.leaf_opt from_str type_name v f.path accepted)
    unfolding Values.leaf_opt
    leaf_opt-IsSafe = bind-IsSafe (field v f.path) _ field-IsSafe (λ g _.
        elim (Option-cases (v.entries f.path)) [
          | inl e ↦ rw e tt
          | inr (e, p) ↦ rw p (
              bind-IsSafe (parse_text from_str type_name g e accepted) _
                (parse_text-IsSafe from_str type_name g e accepted) (λ _ _. tt))
        ])

  enabled-IsSafe : IsSafe (enabled v f)
  unfolding enabled enabled_as
  enabled-IsSafe = elim f.kind as (λ k. IsSafe (enabled_as k v f)) [
    | Kind.bool ↦ bind-IsSafe (Values.bool_opt v f.path) _ bool_opt-IsSafe (λ _ _. tt)
    | Kind.text ↦ tt
  ]

  check_class-IsSafe : (c : Class) → IsSafe (check_class c v f)
  unfolding check_class
  check_class-IsSafe neutral = tt
  check_class-IsSafe prod_required = elim (Bool-cases (is_some (v.entries f.path))) [
    | inl p ↦ rw p tt
    | inr p ↦ rw p tt
  ]
  check_class-IsSafe dev_only =
      bind-IsSafe (enabled v f) _ enabled-IsSafe
        (λ on _. elim (Bool-cases on) [ inl p ↦ rw p tt | inr p ↦ rw p tt ])

check_all-IsSafe : (v : Values) (fs : List Field) → Covers v fs → IsSafe (check_all v fs)
unfolding check_all
check_all-IsSafe v [] _ = tt
check_all-IsSafe v (f ∷ fs) (m, ms) =
    bind-IsSafe (check_class f.class v f) _ (check_class-IsSafe v f m f.class)
      (λ _ _. check_all-IsSafe v fs ms)

pub fields-Covers : (v : Values) → Covers v v.fields
fields-Covers v = All-of_Elem (λ (f : Field). Elem f v.fields) v.fields (λ f m. m)

enforce-IsSafe : (v : Values) (d : Deployment) → IsSafe (enforce v d)
unfolding enforce
enforce-IsSafe v dev = tt
enforce-IsSafe v prod = check_all-IsSafe v v.fields (fields-Covers v)

module _ {T : Type 0} (files : Files) (r : Root T) where
  merge-fields :
      (p : Parsed) (env : List (Text × Text)) {v : Values}
      → merge files r.app r.schema p env ≡ ok v
      → v.fields ≡ r.schema
  unfolding merge
  merge-fields p env h =
      let (m, _, done) =
        bind-eq-ok
          (with_chosen_file files r.app r.schema (file_choice r.app p.config (collect env))
            (with_defaults r.schema empty))
          _ h in
      cc

  module _ (closed : (v : Values) → Covers v r.schema → IsSafe (r.from_values v)) where
    finish-IsSafe :
        (show : Bool) (v : Values) → v.fields ≡ r.schema → IsSafe (finish files r show v)
    unfolding finish
    finish-IsSafe true v e = tt
    finish-IsSafe false v e =
        bind-IsSafe (r.from_values v) _ (closed v (subst (Covers v) e (fields-Covers v))) (λ t _.
          bind-IsSafe (enforce v (r.deployment t)) _ (enforce-IsSafe v (r.deployment t))
            (λ _ _. tt))

    after_args-IsSafe : (env : List (Text × Text)) (p : Parsed) → IsSafe (after_args files r env p)
    unfolding after_args
    after_args-IsSafe env p = elim (Bool-cases p.help) [
      | inl h ↦ rw h tt
      | inr h ↦ rw h (
          bind-IsSafe (lift (merge files r.app r.schema p env)) _ (lift-IsSafe _)
            (λ v m. finish-IsSafe p.print_config v (merge-fields p env (lift-eq-ok _ m))))
    ]

    pub load_from-IsSafe :
        (args : List Text) (env : List (Text × Text)) → IsSafe (load_from files r args env)
    unfolding load_from
    load_from-IsSafe args env =
        bind-IsSafe (lift (Args.parse r.schema args)) _ (lift-IsSafe _)
          (λ p _. after_args-IsSafe env p)
