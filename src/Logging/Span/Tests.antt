-- ===== src/Logging/Span/Tests.antt =====
-- A request inside a span and around another, and the theorem on its id and actor applied.
use common_rust.Prelude.{ℕ, none, some, [], ◌∷◌, ◌++◌, list_eq, nat_eq, ◌≡◌, refl}
use common_rust.Prelude.Text.{Text, codes}
use common_rust.Logging.Fields.{Span}
use common_rust.Logging.Format.{lookup_ctx}
use common_rust.Logging.Span.{gen_reqid, request_span, set_actor}
use common_rust.Logging.Span.Reached.{lookup_ctx-request}

abbrev escape : ℕ → Text
escape c = c ∷ []

abbrev plain_span : Span
plain_span = record { ctx = none; fields = some ((codes "run", codes "7") ∷ []) }

sample_reqid : gen_reqid (some 0x1234567890) 65537 ≡ (codes "345678900001", 65538)
unfolding gen_reqid
sample_reqid = refl

lookup_ctx-request_example :
    lookup_ctx (
      (plain_span ∷ [])
      ++ set_actor escape (codes "ada") (request_span escape (codes "r1")) ∷ (plain_span ∷ []))
    ≡ record { reqid = some (codes "r1"); actor = some (codes "ada") }
lookup_ctx-request_example =
    lookup_ctx-request escape (codes "r1") (codes "ada") (plain_span ∷ []) (plain_span ∷ [])
      (tt, tt)
