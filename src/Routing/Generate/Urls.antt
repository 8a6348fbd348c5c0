-- ===== src/Routing/Generate/Urls.antt =====
-- The template of an URL against the params that the table of routes records of its path.
use common_rust.Prelude.{
  true, false, ◌||◌, Option, none, some, List, [], ◌∷◌, ◌++◌, nat_eq, list_eq, if◌then◌else◌, any,
  map, ◌≡◌, ◌⊎◌, refl, inl, inr, All, Bool-cases,
}
use common_rust.Prelude.Text.{
  Text, codes, is_empty, is_some, starts_with, ends_with_char, split, join,
}
use common_rust.Routing.Manifest.{braced, path_param, inner_param}
use common_rust.Routing.Generate.{templated, is_template_inner, url_of}

-- What stands between the braces of a segment that has them is an escaped brace, or else it is not
-- empty and no brace ends it.
abbrev pub IsPlain : Text → Type 0
IsPlain seg =
    (inner : Text)
    → braced seg ≡ some inner
    → (starts_with (codes "{") inner ≡ true)
      ⊎ ((is_empty inner ≡ false) × (ends_with_char b'}' inner ≡ false))

-- A segment of the URL by the param of the segment of the path.
abbrev pub shown : Text → Option Text → Text
shown seg none = seg
shown seg (some p) = codes "${enc(" ++ (p ++ codes ")}")

templated_as :
    (seg : Text) (inner : Option Text)
    → ((t : Text)
        → inner ≡ some t
        → (starts_with (codes "{") t ≡ true)
          ⊎ ((is_empty t ≡ false) × (ends_with_char b'}' t ≡ false)))
    → (templated inner seg ≡ shown seg (inner_param inner))
      × (is_template_inner inner ≡ is_some (inner_param inner))
templated_as seg none h = (refl, refl)
templated_as seg (some t) h = elim (h t refl) [
  | inl escaped ↦ rw escaped (refl, refl)
  | inr (filled, open_end) ↦ elim (Bool-cases (starts_with (codes "{") t)) [
    | inl escaped ↦ rw escaped (refl, refl)
    | inr plain ↦ rw (plain, filled, open_end) (refl, refl)
  ]
]

segments_as :
    (segs : List Text)
    → All IsPlain segs
    → (map (λ seg. templated (braced seg) seg) segs ≡ map (λ seg. shown seg (path_param seg)) segs)
      × (any (λ seg. is_template_inner (braced seg)) segs
          ≡ any (λ seg. is_some (path_param seg)) segs)
unfolding path_param any
segments_as [] h = (refl, refl)
segments_as (seg ∷ segs) (p, h) =
    let (one, is) = templated_as seg (braced seg) p in
    let (more, are) = segments_as segs h in ((λ i. one i ∷ more i), (λ i. is i || are i))

-- In a path whose segments in braces are escaped, or are neither empty nor ended by a brace, the
-- URL has a hole exactly for each segment that is a param of the route, which the param fills, and
-- it is a template exactly if there is one.
pub url_of-path_param :
    (path : Text)
    → All IsPlain (split b'/' path)
    → url_of path ≡ (
        let segs = split b'/' path in
        let mark = if any (λ seg. is_some (path_param seg)) segs then b'`' else b'"' in
        mark ∷ (join (codes "/") (map (λ seg. shown seg (path_param seg)) segs) ++ mark ∷ []))
unfolding url_of
url_of-path_param path h =
    let (same, are) = segments_as (split b'/' path) h in
    λ i.
      (if are i then b'`' else b'"')
      ∷ (join (codes "/") (same i) ++ (if are i then b'`' else b'"') ∷ [])
