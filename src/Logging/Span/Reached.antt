-- ===== src/Logging/Span/Reached.antt =====
-- crates/logging/src/span.rs and format.rs: the id of a request and its actor reach every line.
use common_rust.Prelude.{
  ℕ, Option, none, some, List, [], ◌∷◌, ◌++◌, list_eq, nat_eq, list_beq, ◌≡◌, refl, ap, ◌∙◌, All,
}
use common_rust.Prelude.Text.{Text}
use common_rust.Logging.Fields.{Span, ReqCtx, no_ctx}
use common_rust.Logging.Format.{with_ctx, ctx_from, lookup_ctx}
use common_rust.Logging.Span.{request_span, set_actor}

-- The span has neither an id nor an actor.
abbrev pub IsPlain : Option ReqCtx → Type 0
IsPlain none = Unit
IsPlain (some rc) = (rc.reqid ≡ none) × (rc.actor ≡ none)

with_ctx-no_ctx : (c : Option ReqCtx) → IsPlain c → with_ctx c no_ctx ≡ no_ctx
with_ctx-no_ctx none _ = refl
with_ctx-no_ctx (some rc) (r, a) = rw (r, a) refl

ctx_from-append :
    (inner outer : List Span)
    → All (λ (s : Span). IsPlain s.ctx) inner
    → ctx_from (inner ++ outer) no_ctx ≡ ctx_from outer no_ctx
unfolding ctx_from
ctx_from-append [] outer _ = refl
ctx_from-append (s ∷ inner) outer (p, ps) =
    ap (ctx_from (inner ++ outer)) (with_ctx-no_ctx s.ctx p) ∙ ctx_from-append inner outer ps

abbrev full : Text → Text → ReqCtx
full reqid actor = record { reqid = some reqid; actor = some actor }

with_ctx-full :
    (c : Option ReqCtx) (reqid actor : Text) → with_ctx c (full reqid actor) ≡ full reqid actor
with_ctx-full none reqid actor = refl
with_ctx-full (some rc) reqid actor = refl

ctx_from-full :
    (outer : List Span) (reqid actor : Text) → ctx_from outer (full reqid actor) ≡ full reqid actor
unfolding ctx_from
ctx_from-full [] reqid actor = refl
ctx_from-full (s ∷ outer) reqid actor =
    ap (ctx_from outer) (with_ctx-full s.ctx reqid actor) ∙ ctx_from-full outer reqid actor

-- Inside the span of a request whose actor is set, and inside any further spans that name neither, an
-- event has that id and that actor, whatever is around the request.
pub lookup_ctx-request :
    (escape : ℕ → Text) (reqid actor : Text) (inner outer : List Span)
    → All (λ (s : Span). IsPlain s.ctx) inner
    → lookup_ctx (inner ++ set_actor escape actor (request_span escape reqid) ∷ outer)
      ≡ record { reqid = some reqid; actor = some actor }
unfolding lookup_ctx ctx_from set_actor request_span list_beq
lookup_ctx-request escape reqid actor inner outer plain =
    ctx_from-append inner (set_actor escape actor (request_span escape reqid) ∷ outer) plain
    ∙ ctx_from-full outer reqid actor
