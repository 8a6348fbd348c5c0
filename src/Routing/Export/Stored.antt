-- ===== src/Routing/Export/Stored.antt =====
-- What the file of handlers holds after export tests that run in any order.
use common_rust.Prelude.{
  false, Option, none, some, List, [], ◌∷◌, ◌++◌, ◌==◌, nat_eq, list_eq, ◌≡◌, ◌≢◌, refl, sym, ap,
  ◌∙◌, arith, Bool-cases, Option-cases, ◌↔◌, inl, inr, eq_iff, eq_refl, All, Elem, All-Elem,
}
use mathlib.Core.List.{Memᴰ}
use common_rust.Prelude.Result.{Result, ok, ◌>>=◌}
use common_rust.Prelude.Text.{Text, is_empty, trim}
use common_rust.Prelude.Sort.Keyed.{
  lookup, Ascends, Distinct, store, lookup-store, store-Ascends, eq_of_lookup, Ascends-Distinct,
}
use common_rust.Prelude.Dict.{or_else}
use common_rust.Routing.Export.{Handler, Json, with_handler, handlers_in, append_locked}

abbrev pub name_of : Handler → Text
name_of h = h.fqname

abbrev pub handler_at : Text → List Handler → Option Handler
handler_at = lookup name_of

with_handler_lem : (h : Handler) (hs : List Handler) → with_handler h hs ≡ store name_of h hs
unfolding with_handler
with_handler_lem h hs = refl

-- The handlers of the file after a run of exports.
abbrev all_stored : List Handler → List Handler → List Handler
all_stored [] hs = hs
all_stored (h ∷ more) hs = all_stored more (store name_of h hs)

all_stored-Distinct :
    (more hs : List Handler) → Distinct name_of hs → Distinct name_of (all_stored more hs)
all_stored-Distinct [] hs d = d
all_stored-Distinct (h ∷ more) hs d =
    all_stored-Distinct more _ (Ascends-Distinct name_of _ (store-Ascends name_of h hs d))

all_stored-Ascends :
    (h : Handler) (more hs : List Handler)
    → Distinct name_of hs
    → Ascends name_of (all_stored (h ∷ more) hs)
all_stored-Ascends h [] hs d = store-Ascends name_of h hs d
all_stored-Ascends h (k ∷ more) hs d =
    all_stored-Ascends k more (store name_of h hs)
      (Ascends-Distinct name_of _ (store-Ascends name_of h hs d))

lookup_none :
    (h : Handler) (more : List Handler)
    → All (λ k. h.fqname ≢ k.fqname) more
    → handler_at h.fqname more ≡ none
lookup_none h [] n = refl
lookup_none h (k ∷ more) (n, ns) =
    ground (arith, lookup_none h more ns, eq_iff k.fqname h.fqname, n)

lookup-all_stored :
    (j : Text) (more hs : List Handler)
    → Distinct name_of more
    → handler_at j (all_stored more hs) ≡ or_else (handler_at j more) (handler_at j hs)
lookup-all_stored j [] hs d = refl
lookup-all_stored j (h ∷ more) hs (n, d) =
    lookup-all_stored j more (store name_of h hs) d
    ∙ ground (arith, lookup-store name_of j h hs, eq_iff h.fqname j, lookup_none h more n)

-- In a list without two handlers of one name, what is found under a name is what stands there.
at_Elem :
    (j : Text) (hs : List Handler) (h : Handler)
    → handler_at j hs ≡ some h
    → Elem h hs × (h.fqname ≡ j)
at_Elem j (k ∷ hs) h e = elim (Bool-cases (k.fqname == j)) [
  | inl same ↦
      let is : k ≡ h = ground (arith, e, same) in
      (Memᴰ.head (sym is), rw (← is) ((eq_iff k.fqname j).0 same))
  | inr differs ↦
      let (m, named) = at_Elem j hs h (ground (arith, e, differs)) in (Memᴰ.tail m, named)
]
at_Elem j [] h e = absurd (cc)

at_of_Elem :
    (hs : List Handler) (h : Handler)
    → Distinct name_of hs
    → Elem h hs
    → handler_at h.fqname hs ≡ some h
at_of_Elem (k ∷ hs) h d (Memᴰ.head e) = rw e (ground (arith, eq_refl k.fqname))
at_of_Elem (k ∷ hs) h (n, d) (Memᴰ.tail m) = ground (
  arith,
  at_of_Elem hs h d m,
  eq_iff k.fqname h.fqname,
  All-Elem (λ l. k.fqname ≢ l.fqname) hs n m,
)
at_of_Elem [] h d m = elim m [ ]

-- The two lists hold the same handlers, none of them two of one name.
pub record Same (hs ks : List Handler) : Type 0 where
  pub distinct : Distinct name_of hs
  pub distinct' : Distinct name_of ks
  pub same : (h : Handler) → Elem h hs ↔ Elem h ks

Same-at : {hs ks : List Handler} → Same hs ks → (j : Text) → handler_at j hs ≡ handler_at j ks
Same-at {hs} {ks} s j = elim (Option-cases (handler_at j hs)) [
  | inr (h, found) ↦
      let (m, named) = at_Elem j hs h found in
      found ∙ sym (rw (← named) (at_of_Elem ks h s.distinct' ((s.same h).0 m)))
  | inl missing ↦ elim (Option-cases (handler_at j ks)) [
    | inl missing' ↦ missing ∙ sym missing'
    | inr (h, found) ↦
        let (m, named) = at_Elem j ks h found in
        rw (← named) (at_of_Elem hs h s.distinct ((s.same h).1 m)) ∙ sym found
  ]
]

all_stored-Same :
    (hs ks xs : List Handler)
    → Same hs ks
    → Distinct name_of xs
    → all_stored hs xs ≡ all_stored ks xs
all_stored-Same [] [] xs s d = refl
all_stored-Same [] (k ∷ ks) xs s d = elim ((s.same k).1 (Memᴰ.head refl)) [ ]
all_stored-Same (h ∷ hs) [] xs s d = elim ((s.same h).0 (Memᴰ.head refl)) [ ]
all_stored-Same (h ∷ hs) (k ∷ ks) xs s d =
    eq_of_lookup name_of _ _ (all_stored-Ascends h hs xs d) (all_stored-Ascends k ks xs d) (λ j.
      lookup-all_stored j (h ∷ hs) xs s.distinct
      ∙ ap (λ o. or_else o (handler_at j xs)) (Same-at s j)
      ∙ sym (lookup-all_stored j (k ∷ ks) xs s.distinct'))

-- What the file relies on JSON for: every list of handlers has a text, which is not blank and is
-- read as that list, with a line's end too.
pub record IsJson (codec : Json) : Type 0 where
  pub pretty : List Handler → Text
  pub prints : (hs : List Handler) → codec.to_string_pretty hs ≡ ok (pretty hs)
  pub reads : (hs : List Handler) → codec.from_str (pretty hs ++ b'\n' ∷ []) ≡ ok hs
  pub not_blank : (hs : List Handler) → is_empty (trim (pretty hs ++ b'\n' ∷ [])) ≡ false

-- The file after each of some exports has run.
abbrev pub append_all : Json → List Handler → Text → Result Text Text
append_all codec [] text = ok text
append_all codec (h ∷ hs) text = append_locked codec h text >>= append_all codec hs

append_locked_lem :
    (codec : Json) (h : Handler) (text : Text) (xs : List Handler) (is_json : IsJson codec)
    → handlers_in codec text ≡ ok xs
    → append_locked codec h text ≡ ok (is_json.pretty (store name_of h xs) ++ b'\n' ∷ [])
unfolding append_locked
append_locked_lem codec h text xs is_json read =
    rw (read, with_handler_lem h xs, is_json.prints (store name_of h xs)) refl

read_back :
    (codec : Json) (is_json : IsJson codec) (hs : List Handler)
    → handlers_in codec (is_json.pretty hs ++ b'\n' ∷ []) ≡ ok hs
read_back codec is_json hs = rw (is_json.not_blank hs) (is_json.reads hs)

append_all_lem :
    (codec : Json) (is_json : IsJson codec) (h : Handler) (more : List Handler) (text : Text)
    (xs : List Handler)
    → handlers_in codec text ≡ ok xs
    → append_all codec (h ∷ more) text
      ≡ ok (is_json.pretty (all_stored (h ∷ more) xs) ++ b'\n' ∷ [])
append_all_lem codec is_json h [] text xs read =
    rw (append_locked_lem codec h text xs is_json read) refl
append_all_lem codec is_json h (k ∷ more) text xs read =
    rw (append_locked_lem codec h text xs is_json read) (
      append_all_lem codec is_json k more _ (store name_of h xs)
        (read_back codec is_json (store name_of h xs)))

-- If JSON is read back as it was written, the export tests leave the same file in whatever order
-- they run: the same handlers, at least one and no two of one name, added in two orders to a file
-- that holds no two of one name, succeed and leave the same text, a list of handlers in the order
-- of their names, in which under each name stands the one that was added or else the one that
-- stood there.
pub append_all_order :
    (codec : Json) (is_json : IsJson codec) (h : Handler) (hs ks : List Handler) (text : Text)
    (xs : List Handler)
    → handlers_in codec text ≡ ok xs
    → Distinct name_of xs
    → Same (h ∷ hs) ks
    → (out : List Handler) × (append_all codec (h ∷ hs) text
        ≡ ok (is_json.pretty out ++ b'\n' ∷ []))
      × (append_all codec ks text ≡ ok (is_json.pretty out ++ b'\n' ∷ []))
      × Ascends name_of out
      × ((j : Text) → handler_at j out ≡ or_else (handler_at j (h ∷ hs)) (handler_at j xs))
append_all_order codec is_json h hs [] text xs read d s = elim ((s.same h).0 (Memᴰ.head refl)) [ ]
append_all_order codec is_json h hs (k ∷ ks) text xs read d s = (
  all_stored (h ∷ hs) xs,
  append_all_lem codec is_json h hs text xs read,
  append_all_lem codec is_json k ks text xs read
      ∙ ap (λ out. ok (is_json.pretty out ++ b'\n' ∷ [])) (sym (all_stored-Same _ _ xs s d)),
  all_stored-Ascends h hs xs d,
  λ j. lookup-all_stored j (h ∷ hs) xs s.distinct,
)
