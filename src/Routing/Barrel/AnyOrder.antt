-- ===== src/Routing/Barrel/AnyOrder.antt =====
-- The barrel and the order in which a directory is listed.
use common_rust.Prelude.{Option, none, some, List, [], ◌∷◌, map, ◌≡◌, refl}
use mathlib.Core.List.{Permᴰ}
use mathlib.Core.List.Permᴰ as Reorder
use common_rust.Prelude.Result.{ok}
use common_rust.Prelude.Text.{Text}
use common_rust.Prelude.Sort.Order.{sort_by-perm}
use common_rust.Routing.Manifest.{onto}
use common_rust.Routing.Barrel.{Barrel, Directory, stem_of, stems_of, render}

abbrev Name : Type 0
Name = Option Text

-- The stems of names that are all listed.
abbrev kept : Barrel → List Name → List Text
kept b [] = []
kept b (name ∷ names) = onto (stem_of b name) (kept b names)

stems_of-kept : (b : Barrel) (names : List Name) → stems_of b (map ok names) ≡ ok (kept b names)
unfolding stems_of
stems_of-kept b [] = refl
stems_of-kept b (name ∷ names) = rw (stems_of-kept b names) refl

onto-perm : (o : Option Text) {xs ys : List Text} → Permᴰ xs ys → Permᴰ (onto o xs) (onto o ys)
onto-perm none p = p
onto-perm (some t) p = Permᴰ.cons refl p

onto_swap : (o p : Option Text) (xs : List Text) → Permᴰ (onto o (onto p xs)) (onto p (onto o xs))
onto_swap none p xs = Reorder.refl (onto p xs)
onto_swap (some t) none xs = Reorder.refl (t ∷ xs)
onto_swap (some t) (some u) xs = Permᴰ.swap refl refl

kept-perm : (b : Barrel) {xs ys : List Name} → Permᴰ xs ys → Permᴰ (kept b xs) (kept b ys)
kept-perm b Permᴰ.nil = Permᴰ.nil
kept-perm b (Permᴰ.cons {l₂ = l₂} e p) = rw e (onto-perm _ (kept-perm b p))
kept-perm b (Permᴰ.swap {a = x} {b = y} {l = l} e f) =
    rw (← e, ← f) (onto_swap (stem_of b x) (stem_of b y) (kept b l))
kept-perm b (Permᴰ.trans p q) = Permᴰ.trans (kept-perm b p) (kept-perm b q)

-- Two listings of the same names give the same barrel, whatever their orders.
pub render_any_order :
    {W : Type 0} (fs : Directory W) (b : Barrel) (dir : Text) (w w' : W)
    (names names' : List (Option Text))
    → Permᴰ names names'
    → (fs.read_dir dir w).0 ≡ ok (map ok names)
    → (fs.read_dir dir w').0 ≡ ok (map ok names')
    → (render fs b dir w).0 ≡ (render fs b dir w').0
unfolding render
render_any_order fs b dir w w' names names' p e e' =
    rw (e, e', stems_of-kept b names, stems_of-kept b names', sort_by-perm (kept-perm b p)) refl
