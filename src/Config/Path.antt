-- ===== src/Config/Path.antt =====
-- crates/config/src/path.rs: a field's position and the spellings generated from it.
use common_rust.Prelude.{
  Bool, List, [], ◌∷◌, ◌++◌, map, PartialEq, list_eq, nat_eq, list_beq, eq_iff, ◌≡◌, ◌↔◌, ap,
}
use common_rust.Prelude.Text.{Text, codes, is_empty, join, replace_char, ascii_upper}

pub record FieldPath : Type 0 where
  pub segments : List Text

abbrev pub path_beq : FieldPath → FieldPath → Bool
path_beq p q = list_beq p.segments q.segments

pub path_beq_iff : (p q : FieldPath) → (path_beq p q ≡ Bool.true) ↔ (p ≡ q)
path_beq_iff p q =
    let (to, from) = eq_iff p.segments q.segments in
    (λ h i. record { segments = to h i }, λ e. from (ap (λ (r : FieldPath). r.segments) e))

instance abbrev pub path_eq : PartialEq FieldPath
path_eq = record { decides = path_beq_iff; eq = path_beq }

abbrev pub root : FieldPath
root = record { segments = [] }

pub child : FieldPath → Text → FieldPath
child p name = record { segments = p.segments ++ name ∷ [] }

pub is_root : FieldPath → Bool
is_root p = is_empty p.segments

-- `last().unwrap_or("")` and the parents of `split_last()`
abbrev pub last : List Text → Text
last [] = []
last (s ∷ []) = s
last (s ∷ (t ∷ r)) = last (t ∷ r)

abbrev pub parents : List Text → List Text
parents [] = []
parents (s ∷ []) = []
parents (s ∷ (t ∷ r)) = s ∷ parents (t ∷ r)

unfoldable pub leaf : FieldPath → Text
leaf p = last p.segments

unfoldable pub section : FieldPath → Text
unfolding join
section p = join (codes ".") (parents p.segments)

unfoldable pub dotted : FieldPath → Text
unfolding join
dotted p = join (codes ".") p.segments

unfoldable pub flag : FieldPath → Text
unfolding join
flag p = codes "--" ++ join (codes "--") (map (replace_char b'_' b'-') p.segments)

unfoldable pub env : Text → FieldPath → Text
unfolding join ascii_upper
env app p = map ascii_upper (app ++ (codes "_" ++ join (codes "__") p.segments))
