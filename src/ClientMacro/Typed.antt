-- ===== src/ClientMacro/Typed.antt =====
-- crates/routing-macros/src/parse.rs: every call that the macro writes has the type argument that it
-- needs, and which of them make an argument in the path.
use common_rust.Prelude.{
  Bool, true, false, Option, none, some, List, [], ◌∷◌, ◌++◌, list_eq, nat_eq, if◌then◌else◌, any,
  map, ◌≡◌, ◌≢◌, refl, inl, inr, Bool-cases, subst, All,
}
use common_rust.Prelude.Result.{Result, ok, err, bind-eq-ok}
use common_rust.Prelude.Text.{Text}
use common_rust.Macros.{Ty, MacroError, FnArg, receiver, typed, Pat}
use common_rust.Routing.Export as Export
use common_rust.Routing.Export.{Handler, Field}
use common_rust.Routing.Arg as Arg
use common_rust.Routing.Arg.{Ts}
use common_rust.ClientMacro.Signature as Signature
use common_rust.ClientMacro.Signature.{
  Kind, Descriptor, describe, classify, classify_as, with_arg, is_among, path_names, query_names,
  body_names, multipart_names, last_segment, last_elem,
}
use common_rust.ClientMacro.Expand as Expand
use common_rust.ClientMacro.Expand.{call_of, takes_path, ExportTest, expand, handler_of, is_path}

-- An argument whose call has the type argument that it needs.
abbrev pub TypedAs : Kind → Option Ty → Type 0
TypedAs k (some ty) = Unit
TypedAs Kind.multipart none = Unit
TypedAs Kind.path none = ⊥
TypedAs Kind.query none = ⊥
TypedAs Kind.body none = ⊥

abbrev pub Typed : Signature.Arg → Type 0
Typed a = TypedAs a.kind a.ty

abbrev TypedClass : Option (Kind × Option Ty) → Type 0
TypedClass none = Unit
TypedClass (some (k, ty)) = TypedAs k ty

abbrev pub WhenOk : {A : Type 0} → (A → Type 0) → Result MacroError A → Type 0
WhenOk P (ok a) = P a
WhenOk P (err e) = Unit

pub if_holds :
    {A : Type 0} (P : A → Type 0) (b : Bool) {x y : A} → P x → P y → P (if b then x else y)
if_holds P true p q = p
if_holds P false p q = q

classify_as-Typed : (c : Option (Text × Option Ty)) → WhenOk TypedClass (classify_as c)
classify_as-Typed none = tt
classify_as-Typed (some (ident, none)) =
    let P = WhenOk TypedClass in
    if_holds P (is_among path_names ident) tt (
      if_holds P (is_among query_names ident) tt (
        if_holds P (is_among body_names ident) tt
          (if_holds P (is_among multipart_names ident) tt tt)))
classify_as-Typed (some (ident, some ty)) =
    let P = WhenOk TypedClass in
    if_holds P (is_among path_names ident) tt (
      if_holds P (is_among query_names ident) tt (
        if_holds P (is_among body_names ident) tt
          (if_holds P (is_among multipart_names ident) tt tt)))

pub when_ok :
    {A : Type 0} (P : A → Type 0) (m : Result MacroError A) {a : A} → WhenOk P m → m ≡ ok a → P a
when_ok P m h e = subst (WhenOk P) e h

with_arg-Typed :
    (pat : Pat) (c : Option (Kind × Option Ty)) (args : List Signature.Arg)
    → TypedClass c
    → All Typed args
    → All Typed (with_arg pat c args)
with_arg-Typed pat none args _ h = h
with_arg-Typed pat (some (k, ty)) args t h = (t, h)

pub args_of-Typed :
    (name : Text) (inputs : List FnArg) {args : List Signature.Arg}
    → Signature.args_of name inputs ≡ ok args
    → All Typed args
unfolding Signature.args_of classify
args_of-Typed name [] {args} h = let e : [] ≡ args = cc in subst (All Typed) e tt
args_of-Typed name (receiver ∷ inputs) h = cc
args_of-Typed name (typed pat ty ∷ inputs) {args} h =
    let (c, classed, h1) = bind-eq-ok (classify ty) _ h in
    let (rest, read, done) = bind-eq-ok (Signature.args_of name inputs) _ h1 in
    let made : with_arg pat c rest ≡ args = cc in
    subst (All Typed) made (
      with_arg-Typed pat c rest
        (when_ok TypedClass (classify ty) (classify_as-Typed (last_segment ty)) classed)
        (args_of-Typed name inputs read))

abbrev pub NotPath : Export.Arg → Type 0
NotPath x = x.kind ≢ Export.Kind.path

module _ (ts : Ty → Ts) where
  -- The arguments that come of the signature, whatever calls follow.
  pub record AreCalled (args : List Signature.Arg) (xs : List Export.Arg) : Type 0 where
    pub before :
        (calls : List Expand.Call) (ys : List Export.Arg)
        → Expand.args_of ts calls ≡ some ys
        → Expand.args_of ts (map call_of args ++ calls) ≡ some (xs ++ ys)
    pub no_path : takes_path args ≡ false → All NotPath xs

  -- The argument that a call makes.
  call-arg :
      (k : Kind) (ty : Option Ty) (name : Text)
      → TypedAs k ty
      → (x : Export.Arg) × (Expand.arg_of ts (Expand.call_as k ty name) ≡ some x)
        × (is_path k ≡ false → NotPath x)
  unfolding Arg.path
  call-arg Kind.path (some ty) name _ = (Arg.path name (ts ty), refl, λ e. absurd (cc e))
  call-arg Kind.query (some ty) name _ = (Arg.query name (ts ty), refl, λ _ e. absurd (cc e))
  call-arg Kind.body (some ty) name _ = (Arg.body name (ts ty), refl, λ _ e. absurd (cc e))
  call-arg Kind.multipart ty name _ = (Arg.multipart name, refl, λ _ e. absurd (cc e))
  call-arg Kind.path none name t = absurd t
  call-arg Kind.query none name t = absurd t
  call-arg Kind.body none name t = absurd t

  pub called :
      (args : List Signature.Arg) → All Typed args → (xs : List Export.Arg) × AreCalled args xs
  unfolding Expand.args_of any
  called [] _ = ([], record { before = λ calls ys h. h; no_path = λ _. tt })
  called (a ∷ args) (t, ts') =
      let (x, made, not_path) = call-arg a.kind a.ty a.name t in
      let (xs, c) = called args ts' in
      (
        x ∷ xs,
        record {
          before = λ calls ys h. rw (made, c.before calls ys h) refl;
          no_path = λ h. elim (Bool-cases (is_path a.kind)) [
            | inl e ↦ absurd (cc (rw e at h))
            | inr e ↦ (not_path e, c.no_path (rw e at h))
          ];
        },
      )
