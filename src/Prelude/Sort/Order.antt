-- ===== src/Prelude/Sort/Order.antt =====
-- Sorting texts forgets the order in which they come.
use mathlib.Core.Path.{◌≡◌, refl, ◌∙◌}
use mathlib.Core.List.{List, [], ◌∷◌, Permᴰ}
use native.Mathlib.Omega.{arith}
use common_rust.Prelude.Text.{Text}
use common_rust.Prelude.Sort.{
  text_lt, text_lt_irrefl, text_lt_trans, text_lt_total, insert_by, sort_by,
}

insert_end : (x y : Text) → insert_by text_lt x (y ∷ []) ≡ insert_by text_lt y (x ∷ [])
unfolding insert_by
insert_end x y = ground (arith, text_lt_total x y, text_lt_trans x y x, text_lt_irrefl x)

insert_by_comm :
    (x y : Text) (zs : List Text)
    → insert_by text_lt x (insert_by text_lt y zs) ≡ insert_by text_lt y (insert_by text_lt x zs)
unfolding insert_by
insert_by_comm x y [] = insert_end x y
insert_by_comm x y (z ∷ zs) = ground (
  arith,
  text_lt_total x y,
  text_lt_trans x y x,
  text_lt_irrefl x,
  text_lt_trans z x y,
  text_lt_trans z y x,
  text_lt_trans x z y,
  insert_by_comm x y zs,
)

pub sort_by-perm : {xs ys : List Text} → Permᴰ xs ys → sort_by text_lt xs ≡ sort_by text_lt ys
unfolding sort_by
sort_by-perm Permᴰ.nil = refl
sort_by-perm (Permᴰ.cons e p) = λ i. insert_by text_lt (e i) (sort_by-perm p i)
sort_by-perm (Permᴰ.swap {a} {b} {l = l} e f) =
    insert_by_comm a b (sort_by text_lt l)
    ∙ (λ i. insert_by text_lt (f i) (insert_by text_lt (e i) (sort_by text_lt l)))
sort_by-perm (Permᴰ.trans p q) = sort_by-perm p ∙ sort_by-perm q
