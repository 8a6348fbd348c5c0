-- ===== src/ClientMacro/Links.antt =====
-- crates/routing-macros/src/parse.rs: a return type never makes a handler a link.
use common_rust.Prelude.{Option, none, some, ◌==◌, list_eq, nat_eq, ◌≢◌}
use common_rust.Prelude.Result.{Result}
use common_rust.Prelude.Text.{Text, codes}
use common_rust.Macros.{Ty, MacroError, Segments, Arguments, Generics}
use common_rust.ClientMacro.Signature as Signature
use common_rust.ClientMacro.Signature.{
  Kind, Descriptor, describe, classify, classify_as, with_arg, is_among, path_names, query_names,
  body_names, multipart_names, last_segment, last_elem,
}
use common_rust.ClientMacro.Typed.{WhenOk, if_holds}

abbrev pub NotLink : Signature.Response → Type 0
NotLink r = r ≢ Signature.link

abbrev InnerNotLink : Option (Ty × Result MacroError Signature.Response) → Type 0
InnerNotLink none = Unit
InnerNotLink (some (ty, r)) = WhenOk NotLink r

abbrev SegmentsNotLink : Option (Text × Option (Ty × Result MacroError Signature.Response)) → Type 0
SegmentsNotLink none = Unit
SegmentsNotLink (some (ident, inner)) = InnerNotLink inner

-- A response that is read off the return type is no link.
module _ (quoted : Ty → Text) (name : Text) where
  last_payload-NotLink :
      (ty : Ty) (last : Option (Text × Option Ty))
      → WhenOk NotLink (Signature.last_payload quoted name ty last)
  last_payload-NotLink ty none = tt
  last_payload-NotLink ty (some (ident, none)) = tt
  last_payload-NotLink ty (some (ident, some inner)) =
      if_holds (WhenOk NotLink) (is_among body_names ident) (λ e. absurd (cc e)) tt

  tuple-NotLink :
      (ty : Ty) (last : Option Ty) → WhenOk NotLink (Signature.tuple_response quoted name ty last)
  tuple-NotLink ty none = λ e. absurd (cc e)
  tuple-NotLink ty (some last) = last_payload-NotLink ty (last_segment last)

  path-NotLink :
      (ty : Ty) (x : Option (Text × Option (Ty × Result MacroError Signature.Response)))
      → SegmentsNotLink x
      → WhenOk NotLink (Signature.path_response quoted name ty x)
  path-NotLink ty none _ = tt
  path-NotLink ty (some (ident, none)) _ =
      if_holds (WhenOk NotLink) (ident == codes "StatusCode") (λ e. absurd (cc e)) tt
  path-NotLink ty (some (ident, some (inner, r))) h =
      if_holds (WhenOk NotLink) (ident == codes "Result") h
        (if_holds (WhenOk NotLink) (is_among body_names ident) (λ e. absurd (cc e)) tt)

  mutual
    unfolding Signature.response_of

    pub response_of-NotLink : (ty : Ty) → WhenOk NotLink (Signature.response_of quoted name ty)
    response_of-NotLink (Ty.tuple ts) = tuple-NotLink (Ty.tuple ts) (last_elem ts)
    response_of-NotLink (Ty.path q leading segments) =
        path-NotLink (Ty.path q leading segments) (Signature.segments_response quoted name segments)
          (segments-NotLink segments)
    response_of-NotLink (Ty.other t) = tt

    segments-NotLink : (s : Segments) → SegmentsNotLink (Signature.segments_response quoted name s)
    segments-NotLink Segments.end = tt
    segments-NotLink (Segments.segment ident args Segments.end) = arguments-NotLink args
    segments-NotLink (Segments.segment _ _ (Segments.segment ident args rest)) =
        segments-NotLink (Segments.segment ident args rest)

    arguments-NotLink : (a : Arguments) → InnerNotLink (Signature.arguments_response quoted name a)
    arguments-NotLink Arguments.bare = tt
    arguments-NotLink Arguments.parenthesized = tt
    arguments-NotLink (Arguments.angle g) = generics-NotLink g

    generics-NotLink : (g : Generics) → InnerNotLink (Signature.generics_response quoted name g)
    generics-NotLink Generics.stop = tt
    generics-NotLink (Generics.ty_arg t rest) = response_of-NotLink t
    generics-NotLink (Generics.other_arg rest) = generics-NotLink rest
