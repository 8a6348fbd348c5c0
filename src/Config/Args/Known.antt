-- ===== src/Config/Args/Known.antt =====
-- Where the values of a parse come from.
use mathlib.Core.List.{Memᴰ}
use common_rust.Prelude.{
  ℕ, zero, suc, Option, none, some, List, [], ◌∷◌, map, list_eq, nat_eq, Option-cases, Bool-cases,
  ◌==◌, ◌≡◌, refl, arith, All, All-append, Elem, eq_iff, ◌∙◌, sym, subst, inl, inr,
}
use common_rust.Prelude.Dict.{Dict, last_value, collect-last_value}
use common_rust.Prelude.Result.{Result, ok, err, ◌>>=◌, bind-eq-ok}
use common_rust.Prelude.Text.{Text}
use common_rust.Config.Path.{FieldPath}
use common_rust.Config.Refusal.{Refusal}
use common_rust.Config.Schema.{Field, Kind, field_flag}
use common_rust.Config.Args.{
  Parsed, nothing_parsed, split_token, push_value, take_value, field_turn, flag_turn, named_turn,
  Turn, turn, scan, flag_table, conclude, parse,
}

-- The path and the flag of a value are those of one field of the schema.
abbrev pub IsKnown : List Field → FieldPath × Text × Text → Type 0
IsKnown fields (path, text, name) =
    (f : Field) × Elem f fields × (f.path ≡ path) × (field_flag f ≡ name)

flag_of_last :
    (fs : List Field) (name : Text) {f : Field}
    → last_value name (map (λ (g : Field). (field_flag g, g)) fs) ≡ some f
    → Elem f fs × (field_flag f ≡ name)
flag_of_last [] name h = cc
flag_of_last (g ∷ fs) name {f} h =
    elim (Option-cases (last_value name (map (λ (k : Field). (field_flag k, k)) fs))) [
      | inl missed ↦ elim (Bool-cases (field_flag g == name)) [
        | inl same ↦ (
          Memᴰ.head (ground (arith, missed, same)),
          ground (arith, missed, same, eq_iff (field_flag g) name),
        )
        | inr other ↦ absurd (ground (arith, missed, other))
      ]
      | inr (k, found) ↦
          let (m, e) = flag_of_last fs name (found ∙ ground (arith, found)) in (Memᴰ.tail m, e)
    ]

module _ (K : FieldPath × Text × Text → Type 0) where
  abbrev Keeps : Result Refusal Turn → Type 0
  Keeps (ok t) = All K t.parsed.values
  Keeps (err _) = Unit

  abbrev KeepsValue : Parsed → Field → Text → List Text → Result Refusal (Text × ℕ) → Type 0
  KeepsValue p f name u taken = Keeps (do
    (text, n) ← taken
    ok (record { parsed = push_value p f.path text name; unknown = u; taken = n }))

  take-Keeps :
      (p : Parsed) (f : Field) (name : Text) (u : List Text) (taken : Result Refusal (Text × ℕ))
      → ((text : Text) → K (f.path, text, name))
      → All K p.values
      → KeepsValue p f name u taken
  take-Keeps p f name u (ok (text, n)) known h = All-append K p.values _ h (known text, tt)
  take-Keeps p f name u (err _) known h = tt

  field_turn-Keeps :
      (k : Kind) (f : Field) (name : Text) (inline : Option Text) (rest : List Text) (p : Parsed)
      (u : List Text)
      → ((text : Text) → K (f.path, text, name))
      → All K p.values
      → Keeps (field_turn k f name inline rest p u)
  unfolding field_turn
  field_turn-Keeps Kind.bool f name inline rest p u known h =
      All-append K p.values _ h (known _, tt)
  field_turn-Keeps Kind.text f name inline rest p u known h =
      take-Keeps p f name u (take_value name inline rest) known h

  config-Keeps :
      (p : Parsed) (u : List Text) (taken : Result Refusal (Text × ℕ))
      → All K p.values
      → Keeps (do
        (value, n) ← taken
        ok (record { parsed = record p { config = some value }; unknown = u; taken = n }))
  config-Keeps p u (ok _) h = h
  config-Keeps p u (err _) h = tt

  module _ (table : Dict Text Field)
      (known : (f : Field) (text name : Text) → table name ≡ some f → K (f.path, text, name)) where
    flag_turn-Keeps :
        (found : Option Field) (token name : Text) (inline : Option Text) (rest : List Text)
        (p : Parsed) (u : List Text)
        → table name ≡ found
        → All K p.values
        → Keeps (flag_turn found token name inline rest p u)
    unfolding flag_turn
    flag_turn-Keeps none token name inline rest p u e h = h
    flag_turn-Keeps (some f) token name inline rest p u e h =
        field_turn-Keeps f.kind f name inline rest p u (λ text. known f text name e) h

    named_turn-Keeps :
        (token name : Text) (inline : Option Text) (rest : List Text) (p : Parsed) (u : List Text)
        → All K p.values
        → Keeps (named_turn table token name inline rest p u)
    unfolding named_turn
    named_turn-Keeps token name inline rest p u h = ground (
      arith,
      config-Keeps p u (take_value name inline rest) h,
      flag_turn-Keeps (table name) token name inline rest p u refl h,
    )

    turn-Keeps :
        (token : Text) (rest : List Text) (p : Parsed) (u : List Text)
        → All K p.values
        → Keeps (turn table token rest p u)
    unfolding turn
    turn-Keeps token rest p u h =
        named_turn-Keeps token (split_token token).0 (split_token token).1 rest p u h

    scan-Keeps :
        (skip : ℕ) (p : Parsed) (u tokens : List Text) {q : Parsed × List Text}
        → All K p.values
        → scan table skip p u tokens ≡ ok q
        → All K q.0.values
    unfolding scan
    scan-Keeps skip p u [] h e = ground arith
    scan-Keeps (suc skip) p u (token ∷ rest) h e = scan-Keeps skip p u rest h e
    scan-Keeps zero p u (token ∷ rest) h e =
        let (t, turned, later) = bind-eq-ok (turn table token rest p u) _ e in
        scan-Keeps t.taken t.parsed t.unknown rest
          (subst Keeps turned (turn-Keeps token rest p u h)) later

conclude-eq-ok : (q : Parsed × List Text) {p : Parsed} → conclude q ≡ ok p → q.0 ≡ p
unfolding conclude
conclude-eq-ok q h = ground arith

-- Every value of a successful parse names a field of the schema by its path and by its flag.
pub parse-IsKnown :
    (fields : List Field) (args : List Text) {p : Parsed}
    → parse fields args ≡ ok p
    → All (IsKnown fields) p.values
unfolding parse conclude
parse-IsKnown fields args {p} e =
    let (q, scanned, done) =
      bind-eq-ok (scan (flag_table fields) 0 nothing_parsed [] args) conclude e in
    let kept =
      scan-Keeps (IsKnown fields) (flag_table fields)
        (λ f text name found.
          let (m, same) = flag_of_last fields name (sym (collect-last_value _ name) ∙ found) in
          (f, m, refl, same))
        0 nothing_parsed [] args tt scanned in
    subst (λ (r : Parsed). All (IsKnown fields) r.values) (conclude-eq-ok q done) kept
