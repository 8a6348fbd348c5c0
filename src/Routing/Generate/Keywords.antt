-- ===== src/Routing/Generate/Keywords.antt =====
-- Which names the function of a handler may not take from the path, and which it takes besides.
use common_rust.Prelude.{
  Bool, true, false, not, List, [], ◌∷◌, ◌==◌, nat_eq, list_eq, if◌then◌else◌, any, keep, ◌≡◌, ◌⊎◌,
  refl, sym, subst, Bool-cases, inl, inr, eq_iff, All, Elem,
}
use mathlib.Core.List.{Memᴰ}
use common_rust.Prelude.Text.{Text, codes, split, is_empty}
use common_rust.Routing.Export.{Kind, Arg, Handler}
use common_rust.Routing.Generate.{is_one_of, reserved, is_query_kind, is_body_kind, args_of}

-- The words that the function may not use as a name: the keywords of TypeScript, and the names of
-- the function's own parameters.
abbrev pub keywords : List Text
keywords =
    codes "break"
    ∷ codes "case"
    ∷ codes "catch"
    ∷ codes "class"
    ∷ codes "const"
    ∷ codes "continue"
    ∷ codes "debugger"
    ∷ codes "default"
    ∷ codes "delete"
    ∷ codes "do"
    ∷ codes "else"
    ∷ codes "enum"
    ∷ codes "export"
    ∷ codes "extends"
    ∷ codes "false"
    ∷ codes "finally"
    ∷ codes "for"
    ∷ codes "function"
    ∷ codes "if"
    ∷ codes "import"
    ∷ codes "in"
    ∷ codes "instanceof"
    ∷ codes "new"
    ∷ codes "null"
    ∷ codes "return"
    ∷ codes "super"
    ∷ codes "switch"
    ∷ codes "this"
    ∷ codes "throw"
    ∷ codes "true"
    ∷ codes "try"
    ∷ codes "typeof"
    ∷ codes "var"
    ∷ codes "void"
    ∷ codes "while"
    ∷ codes "with"
    ∷ codes "yield"
    ∷ codes "let"
    ∷ codes "static"
    ∷ codes "implements"
    ∷ codes "interface"
    ∷ codes "package"
    ∷ codes "private"
    ∷ codes "protected"
    ∷ codes "public"
    ∷ codes "await"
    ∷ codes "query"
    ∷ codes "body"
    ∷ []

keywords-reserved : keywords ≡ reserved
unfolding reserved split
keywords-reserved = refl

is_one_of-Elem : (t : Text) (l : List Text) → is_one_of l t ≡ false → ¬ Elem t l
unfolding any
is_one_of-Elem t [] h m = elim m [ ]
is_one_of-Elem t (r ∷ l) h (Memᴰ.head same) = elim (Bool-cases (r == t)) [
  | inl e ↦ cc (rw e at h)
  | inr e ↦ cc ((eq_iff r t).1 (sym same), e)
]
is_one_of-Elem t (r ∷ l) h (Memᴰ.tail m) = elim (Bool-cases (r == t)) [
  | inl e ↦ cc (rw e at h)
  | inr e ↦ is_one_of-Elem t l (rw e at h) m
]

unreserved : (p : Text) → is_one_of reserved p ≡ false → ¬ Elem p keywords
unreserved p h m = is_one_of-Elem p reserved h (subst (Elem p) keywords-reserved m)

pub free_of_keywords :
    (ps : List Text) → All (λ p. is_one_of reserved p ≡ false) ps → All (λ p. ¬ Elem p keywords) ps
free_of_keywords [] h = tt
free_of_keywords (p ∷ ps) (free, h) = (unreserved p free, free_of_keywords ps h)

-- The handler takes a query.
abbrev pub HasQuery : Handler → Type 0
HasQuery h = (a : Arg) × Elem a h.args × (a.kind ≡ Kind.query)

-- The handler takes a body, of which multipart is one kind.
abbrev pub HasBody : Handler → Type 0
HasBody h = (a : Arg) × Elem a h.args × ((a.kind ≡ Kind.body) ⊎ (a.kind ≡ Kind.multipart))

-- The name alone if the condition holds, and nothing if it does not.
abbrev pub NameIf : Type 0 → Text → List Text → Type 0
NameIf P name l = (P × (l ≡ name ∷ [])) ⊎ ((¬ P) × (l ≡ []))

is_query_kind-eq-true : (k : Kind) → is_query_kind k ≡ true → k ≡ Kind.query
is_query_kind-eq-true Kind.query h = refl
is_query_kind-eq-true Kind.path h = absurd (cc)
is_query_kind-eq-true Kind.body h = absurd (cc)
is_query_kind-eq-true Kind.multipart h = absurd (cc)

is_body_kind-eq-true : (k : Kind) → is_body_kind k ≡ true → (k ≡ Kind.body) ⊎ (k ≡ Kind.multipart)
is_body_kind-eq-true Kind.query h = absurd (cc)
is_body_kind-eq-true Kind.path h = absurd (cc)
is_body_kind-eq-true Kind.body h = inl refl
is_body_kind-eq-true Kind.multipart h = inr refl

module _ (is : Kind → Bool) (Is : Kind → Type 0) (only : (k : Kind) → is k ≡ true → Is k)
    (all_of : (k : Kind) → Is k → is k ≡ true) where
  abbrev Has : List Arg → Type 0
  Has args = (a : Arg) × Elem a args × Is a.kind

  none_first : (arg : Arg) (args : List Arg) → is arg.kind ≡ false → ¬ Has args → ¬ Has (arg ∷ args)
  none_first arg args e others (a, Memᴰ.head same, k) = cc (all_of a.kind k, e, same)
  none_first arg args e others (a, Memᴰ.tail m, k) = others (a, m, k)

  keep-Has :
      (args : List Arg)
      → (Has args × (is_empty (keep (λ (a : Arg). is a.kind) args) ≡ false))
        ⊎ ((¬ Has args) × (is_empty (keep (λ (a : Arg). is a.kind) args) ≡ true))
  unfolding keep
  keep-Has [] = inr (λ (a, m, _). elim m [ ], refl)
  keep-Has (arg ∷ args) = elim (Bool-cases (is arg.kind)) [
    | inl e ↦ inl ((arg, Memᴰ.head refl, only arg.kind e), rw e refl)
    | inr e ↦ elim (keep-Has args) [
      | inl ((a, m, k), some_) ↦ inl ((a, Memᴰ.tail m, k), rw (e, some_) refl)
      | inr (others, none_) ↦ inr (none_first arg args e others, rw (e, none_) refl)
    ]
  ]

  args_of-NameIf :
      (h : Handler) (name : Text)
      → NameIf (Has h.args) name (if not (is_empty (args_of is h)) then name ∷ [] else [])
  args_of-NameIf h name = elim (keep-Has h.args) [
    | inl (has, e) ↦ inl (has, rw e refl)
    | inr (has_not, e) ↦ inr (has_not, rw e refl)
  ]

pub query-NameIf :
    (h : Handler)
    → NameIf
        (HasQuery h)
        (codes "query")
        (if not (is_empty (args_of is_query_kind h)) then codes "query" ∷ [] else [])
query-NameIf h =
    args_of-NameIf is_query_kind (λ k. k ≡ Kind.query) is_query_kind-eq-true (λ k e. rw e refl) h
      (codes "query")

is_body_kind_of : (k : Kind) → (k ≡ Kind.body) ⊎ (k ≡ Kind.multipart) → is_body_kind k ≡ true
is_body_kind_of k (inl e) = rw e refl
is_body_kind_of k (inr e) = rw e refl

pub body-NameIf :
    (h : Handler)
    → NameIf
        (HasBody h)
        (codes "body")
        (if not (is_empty (args_of is_body_kind h)) then codes "body" ∷ [] else [])
body-NameIf h =
    args_of-NameIf is_body_kind (λ k. (k ≡ Kind.body) ⊎ (k ≡ Kind.multipart)) is_body_kind-eq-true
      is_body_kind_of h (codes "body")
