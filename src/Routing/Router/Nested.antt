-- ===== src/Routing/Router/Nested.antt =====
-- What the table of routes says of every route, over any building of a router.
use common_rust.Prelude.{
  false, List, [], ◌∷◌, ◌++◌, ◌==◌, nat_eq, list_eq, map, ◌≡◌, refl, sym, ap, ◌∙◌, ◌≢◌, arith,
  Bool-cases, inl, inr, eq_iff, All, All-append,
}
use mathlib.Core.List.{reverse, reverse-append, reverse-reverse, append_assoc}
use common_rust.Prelude.Text.{Text, codes, trim_start_matches, trim_end_matches}
use common_rust.Prelude.Text.Laws.{trim_start-append, trim_start_idem}
use common_rust.Templating.Cache.{Bytes}
use common_rust.Routing.Manifest.{Registration, parse_path_params}
use common_rust.Routing.Assets.{CachePolicy, AssetSet}
use common_rust.Routing.Router.Mounted.{AllMounted, nested-AllMounted}
use common_rust.Routing.Router.{
  Axum, Router, Handler, is_slash, base_of, nested_path, nested, new, on_method, static_file,
  static_dir, route, nest, merge, layer, route_layer, with_state,
}

-- The base of a base with a prefix after it.
base_of-append : (p q : Text) → base_of (base_of p ++ q) ≡ base_of p ++ base_of q
unfolding trim_end_matches
base_of-append p q =
    let start = trim_start_matches is_slash (reverse p) in
    ap reverse (
      ap (trim_start_matches is_slash)
        (reverse-append (reverse start) q ∙ ap (λ t. reverse q ++ t) (reverse-reverse start))
      ∙ trim_start-append is_slash (reverse q) start (trim_start_idem is_slash (reverse p)))
    ∙ reverse-append (trim_start_matches is_slash (reverse q)) start

base_of_idem : (q : Text) → base_of (base_of q) ≡ base_of q
unfolding trim_end_matches
base_of_idem q =
    ap (λ t. reverse (trim_start_matches is_slash t))
      (reverse-reverse (trim_start_matches is_slash (reverse q)))
    ∙ ap reverse (trim_start_idem is_slash (reverse q))

base_of_slash : base_of (codes "/") ≡ []
unfolding trim_end_matches trim_start_matches
base_of_slash = refl

base_of-ne-slash : (q : Text) → base_of q ≢ codes "/"
base_of-ne-slash q e = cc (base_of_idem q, e, base_of_slash)

only_slash : (b path : Text) → b ≢ codes "/" → b ++ path ≡ codes "/" → path ≡ codes "/"
only_slash [] path n e = e
only_slash (c ∷ []) path n e = absurd (n (cc))
only_slash (c ∷ (d ∷ b)) path n e = absurd (cc)

ne_slash_test : (t : Text) → t ≢ codes "/" → t == codes "/" ≡ false
ne_slash_test t n = elim (Bool-cases (t == codes "/")) [
  | inl same ↦ absurd (n ((eq_iff t (codes "/")).0 same))
  | inr differs ↦ differs
]

nested_path_other : (base path : Text) → path ≢ codes "/" → nested_path base path ≡ base ++ path
nested_path_other base path n = ground (arith, ne_slash_test path n)

nested_path-nested_path :
    (p q path : Text)
    → nested_path (base_of p) (nested_path (base_of q) path)
      ≡ nested_path (base_of (base_of p ++ q)) path
nested_path-nested_path p q path = elim (Bool-cases (path == codes "/")) [
  | inl root ↦
      rw root
        (nested_path_other (base_of p) (base_of q) (base_of-ne-slash q) ∙ sym (base_of-append p q))
  | inr other ↦
      let no_root : path ≢ codes "/" = λ e. cc ((eq_iff path (codes "/")).1 e, other) in
      rw other (
        nested_path_other (base_of p) (base_of q ++ path)
          (λ e. no_root (only_slash (base_of q) path (base_of-ne-slash q) e))
        ∙ sym (append_assoc (base_of p) (base_of q) path)
        ∙ ap (λ b. b ++ path) (sym (base_of-append p q)))
]

nested-nested :
    (p q : Text) (regs : List Registration)
    → map (nested (base_of p)) (map (nested (base_of q)) regs)
      ≡ map (nested (base_of (base_of p ++ q))) regs
nested-nested p q [] = refl
nested-nested p q (reg ∷ regs) =
    rw (nested-nested p q regs, nested_path-nested_path p q reg.path) refl

-- The params of a route are those of its whole path.
abbrev pub IsParsed : Registration → Type 0
IsParsed reg = reg.path_params ≡ parse_path_params reg.path

map-nested-IsParsed :
    (base : Text) (regs : List Registration) → All IsParsed (map (nested base) regs)
map-nested-IsParsed base [] = tt
map-nested-IsParsed base (reg ∷ regs) = (refl, map-nested-IsParsed base regs)

module _ {R M H L S : Type 0} (axum : Axum R M H L S) where
  -- How a router is built.
  pub data Built : Router R → Type 0 where
    empty : Built (new axum)
    handled :
        {r : Router R} (method path : Text) (h : Handler H)
        → Built r
        → Built (on_method axum method r path h)
    file :
        {r : Router R} (path : Text) (bytes : Bytes) (content_type : Text) (cache : CachePolicy)
        → Built r
        → Built (static_file axum r path bytes content_type cache)
    dir :
        {r : Router R} (prefix : Text) (files : AssetSet) (cache : CachePolicy)
        → Built r
        → Built (static_dir axum r prefix files cache)
    routed : {r : Router R} (path : Text) (m : M) → Built r → Built (route axum r path m)
    nests : {r s : Router R} (prefix : Text) → Built r → Built s → Built (nest axum r prefix s)
    merged : {r s : Router R} → Built r → Built s → Built (merge axum r s)
    layered : {r : Router R} (l : L) → Built r → Built (layer axum r l)
    route_layered : {r : Router R} (l : L) → Built r → Built (route_layer axum r l)
    stated : {r : Router R} (s : S) → Built r → Built (with_state axum r s)

  -- However a router is built, nested and merged, the params recorded for each of its routes are
  -- those of the path recorded for it.
  pub manifest-IsParsed : {r : Router R} → Built r → All IsParsed r.manifest
  unfolding on_method static_file static_dir route nest merge layer route_layer with_state
  manifest-IsParsed empty = tt
  manifest-IsParsed (handled {r} method path h b) =
      All-append IsParsed r.manifest _ (manifest-IsParsed b) (refl, tt)
  manifest-IsParsed (file {r} path bytes content_type cache b) =
      All-append IsParsed r.manifest _ (manifest-IsParsed b) (refl, tt)
  manifest-IsParsed (dir {r} prefix files cache b) =
      All-append IsParsed r.manifest _ (manifest-IsParsed b) (refl, tt)
  manifest-IsParsed (routed path m b) = manifest-IsParsed b
  manifest-IsParsed (nests {r} {s} prefix b c) =
      All-append IsParsed r.manifest _ (manifest-IsParsed b)
        (map-nested-IsParsed (base_of prefix) s.manifest)
  manifest-IsParsed (merged {r} {s} b c) =
      All-append IsParsed r.manifest s.manifest (manifest-IsParsed b) (manifest-IsParsed c)
  manifest-IsParsed (layered l b) = manifest-IsParsed b
  manifest-IsParsed (route_layered l b) = manifest-IsParsed b
  manifest-IsParsed (stated s b) = manifest-IsParsed b

  -- A router that is nested in another adds its routes to the table there, in their order, each with
  -- its name and method, at the prefix without the slashes at its end and then the route's own path
  -- unless that is `/`, and with the params of the whole path; and a router nested in a router that
  -- is nested in a third records there what it would record if it were nested at once under both
  -- prefixes, the slashes at the end of the outer one left off.
  pub nest-nest :
      (outer r : Router R) (p q : Text)
      → ((regs : List Registration) × ((nest axum outer p r).manifest ≡ outer.manifest ++ regs)
          × AllMounted p r.manifest regs)
        × ((nest axum outer p (nest axum (new axum) q r)).manifest
            ≡ (nest axum outer (base_of p ++ q) r).manifest)
  unfolding nest
  nest-nest outer r p q = (
    (map (nested (base_of p)) r.manifest, refl, nested-AllMounted p r.manifest),
    ap (λ regs. outer.manifest ++ regs) (nested-nested p q r.manifest),
  )
