-- ===== src/Macros.antt =====
-- The parts of a syntax tree that the derive and attribute macros of the workspace match on, as the
-- parser library gives them. A position in the source is left out; an error of the parser library is
-- one value, and one of a macro has its text.
use common_rust.Prelude.{
  Bool, false, Option, List, [], ◌∷◌, none, some, ◌==◌, if◌then◌else◌, list_eq, nat_eq,
}
use common_rust.Prelude.Result.{Result, ok, err, ◌>>=◌}
use common_rust.Prelude.Text.{Text}

mutual
  -- `path qself leading_colon segments`; a type of another form is known by its text.
  pub data Ty : Type 0 where
    path : Bool → Bool → Segments → Ty
    tuple : Tys → Ty
    other : Text → Ty

  pub data Tys : Type 0 where
    nil : Tys
    cons : Ty → Tys → Tys

  pub data Segments : Type 0 where
    end : Segments
    segment : Text → Arguments → Segments → Segments

  pub data Arguments : Type 0 where
    bare : Arguments
    angle : Generics → Arguments
    parenthesized : Arguments

  pub data Generics : Type 0 where
    stop : Generics
    ty_arg : Ty → Generics → Generics
    other_arg : Generics → Generics

-- `unfinished` is no error of a macro: a loop was given too little fuel.
pub data MacroError : Type 0 where
  refused : Text → MacroError
  syntax unfinished : MacroError

-- What follows a key in an attribute.
pub data MetaValue : Type 0 where
  flag : MetaValue
  literal : Text → MetaValue
  expression list : MetaValue

pub record Meta : Type 0 where
  pub key : Text
  pub value : MetaValue

-- An attribute by its path; `none` is one whose keys or whose text cannot be read.
pub data Attribute : Type 0 where
  keyed : Text → Option (List Meta) → Attribute
  doc : Option Text → Attribute

pub record SynField : Type 0 where
  pub ident : Text
  pub ty : Ty
  pub attrs : List Attribute

pub data SynData : Type 0 where
  named_struct : List SynField → SynData
  other_data : SynData

pub record DeriveInput : Type 0 where
  pub ident : Text
  pub attrs : List Attribute
  pub items : SynData

-- `meta.value()?.parse::<LitStr>()`
abbrev pub text_value : MetaValue → Result MacroError Text
text_value (literal t) = ok t
text_value flag = err syntax
text_value expression = err syntax
text_value list = err syntax

-- A key that takes nothing.
abbrev pub no_value : MetaValue → Result MacroError (Unit {0})
no_value flag = ok tt
no_value (literal t) = err syntax
no_value expression = err syntax
no_value list = err syntax

-- `ty` is a path without a qualified self that is the one identifier.
abbrev pub is_ident : Ty → Text → Bool
is_ident (path false false (segment ident bare end)) name = ident == name
is_ident _ name = false

-- The loop over the keys of an attribute.
unfoldable pub fold_metas :
    {A : Type 0} → (Meta → A → Result MacroError A) → List Meta → A → Result MacroError A
fold_metas f [] a = ok a
fold_metas f (m ∷ ms) a = f m a >>= fold_metas f ms

-- The keys of an attribute of that name; any other attribute has none.
abbrev pub metas_for : Text → Attribute → Result MacroError (List Meta)
metas_for helper (doc t) = ok []
metas_for helper (keyed name none) = if name == helper then err syntax else ok []
metas_for helper (keyed name (some metas)) = if name == helper then ok metas else ok []

unfoldable pub fold_attrs :
    {A : Type 0}
    → Text
    → (Meta → A → Result MacroError A)
    → List Attribute
    → A
    → Result MacroError A
unfolding fold_metas
fold_attrs helper f [] a = ok a
fold_attrs helper f (attr ∷ attrs) a =
    metas_for helper attr >>= λ ms. fold_metas f ms a >>= fold_attrs helper f attrs

mutual
  pub data Pat : Type 0 where
    ident : Text → Pat
    tuple_struct : Pats → Pat
    paren : Pat → Pat
    other : Pat

  pub data Pats : Type 0 where
    end : Pats
    elem : Pat → Pats → Pats

pub data FnArg : Type 0 where
  receiver : FnArg
  typed : Pat → Ty → FnArg

pub record ItemFn : Type 0 where
  pub name : Text
  pub is_async : Bool
  pub inputs : List FnArg
  pub output : Option Ty
