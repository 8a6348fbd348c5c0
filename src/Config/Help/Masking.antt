-- ===== src/Config/Help/Masking.antt =====
-- What the dump tells of a secret.
use common_rust.Prelude.{Bool, true, false, Option, none, some, List, [], ◌∷◌, ◌≡◌, refl, All, map}
use common_rust.Prelude.Text.{Text}
use common_rust.Config.Schema.{Field, Entry}
use common_rust.Config.Values.{Values}
use common_rust.Config.Help.{shown, config_row, print_config}

abbrev pub SameText : Bool → Text → Text → Type 0
SameText true a b = Unit
SameText false a b = a ≡ b

-- Two states of a field that differ at most in the text of a secret.
abbrev pub AgreeUpToSecret : Bool → Option Entry → Option Entry → Type 0
AgreeUpToSecret secret none none = Unit
AgreeUpToSecret secret (some a) (some b) = (a.origin ≡ b.origin) × SameText secret a.text b.text
AgreeUpToSecret secret none (some _) = ⊥
AgreeUpToSecret secret (some _) none = ⊥

shown_masks :
    (secret : Bool) (a b : Entry) → SameText secret a.text b.text → shown secret a ≡ shown secret b
shown_masks true a b h = refl
shown_masks false a b h = h

config_row_masks :
    (f : Field) (a b : Option Entry)
    → AgreeUpToSecret f.secret a b
    → config_row f a ≡ config_row f b
unfolding config_row
config_row_masks f none none h = refl
config_row_masks f (some a) (some b) (o, t) = cc (o, shown_masks f.secret a b t)
config_row_masks f none (some b) h = absurd h
config_row_masks f (some a) none h = absurd h

rows_mask :
    (v w : Values) (fs : List Field)
    → All (λ (f : Field). AgreeUpToSecret f.secret (v.entries f.path) (w.entries f.path)) fs
    → map (λ (f : Field). config_row f (v.entries f.path)) fs
      ≡ map (λ (f : Field). config_row f (w.entries f.path)) fs
rows_mask v w [] h = refl
rows_mask v w (f ∷ fs) (h, hs) =
    cc (config_row_masks f (v.entries f.path) (w.entries f.path) h, rows_mask v w fs hs)

-- If two tables have the same schema and file, and every field is set in both or in neither, with
-- the same origin and, unless it is a secret, the same text, then their dumps are the same text.
pub print_config_masks :
    (v w : Values)
    → v.app ≡ w.app
    → v.fields ≡ w.fields
    → v.file ≡ w.file
    → All (λ (f : Field). AgreeUpToSecret f.secret (v.entries f.path) (w.entries f.path)) v.fields
    → print_config v ≡ print_config w
unfolding print_config
print_config_masks v w app fields file h =
    let row_of = λ (x : Values) (f : Field). config_row f (x.entries f.path) in
    let same_rows : map (row_of v) v.fields ≡ map (row_of w) w.fields =
      rw (← fields) (rows_mask v w v.fields h) in
    cc (app, file, same_rows)
