-- ===== src/Templating/Shell/Block.antt =====
-- What stands in the script block of a shell.
use common_rust.Prelude.{
  ℕ, false, [], ◌∷◌, ◌++◌, ◌==◌, nat_eq, ◌≡◌, ◌≢◌, refl, arith, Bool-cases, inl, inr, eq_iff,
}
use common_rust.Prelude.Result.{ok}
use common_rust.Prelude.Text.{Text, codes, contains_char}
use common_rust.Prelude.Text.Laws.{Lacks, Lacks-append, contains_char-eq-false_iff}
use native.Mathlib.Decide.{ℕ_discrete as dec_eq}
use common_rust.Templating.Shell.{replace_with, escape_block, Engine, json_for_script_block}

replace_with-Lacks : (c : ℕ) (r s : Text) → Lacks c r → Lacks c (replace_with c r s)
unfolding replace_with
replace_with-Lacks c r [] h = tt
replace_with-Lacks c r (d ∷ s) h = elim (Bool-cases (d == c)) [
  | inl same ↦ rw same (Lacks-append c r _ h (replace_with-Lacks c r s h))
  | inr different ↦
      rw different ((λ e. absurd (cc ((eq_iff d c).1 e, different))), replace_with-Lacks c r s h)
]

replace_with_keeps-Lacks :
    (b c : ℕ) (r s : Text) → Lacks b r → Lacks b s → Lacks b (replace_with c r s)
unfolding replace_with
replace_with_keeps-Lacks b c r [] h k = tt
replace_with_keeps-Lacks b c r (d ∷ s) h (p, k) = elim (Bool-cases (d == c)) [
  | inl same ↦ rw same (Lacks-append b r _ h (replace_with_keeps-Lacks b c r s h k))
  | inr different ↦ rw different (p, replace_with_keeps-Lacks b c r s h k)
]

-- How a reader of JSON strings takes a text: an escape of one of the three marks is the mark, a
-- backslash goes with the character after it, which is none of the marks, and all else is itself.
pub data Reads : Text → Text → Type 0 where
  done : Reads [] []
  plain : {s t : Text} (c : ℕ) → c ≢ b'\\' → Reads s t → Reads (c ∷ s) (c ∷ t)
  lt : {s t : Text} → Reads s t → Reads (codes "\\u003c" ++ s) (b'<' ∷ t)
  gt : {s t : Text} → Reads s t → Reads (codes "\\u003e" ++ s) (b'>' ∷ t)
  amp : {s t : Text} → Reads s t → Reads (codes "\\u0026" ++ s) (b'&' ∷ t)
  pair :
      {s t : Text} (c : ℕ)
      → c ≢ b'<'
      → c ≢ b'>'
      → c ≢ b'&'
      → Reads s t
      → Reads (b'\\' ∷ (c ∷ s)) (b'\\' ∷ (c ∷ t))

escape_other :
    (c : ℕ) (s : Text) → c ≢ b'<' → c ≢ b'>' → c ≢ b'&' → escape_block (c ∷ s) ≡ c ∷ escape_block s
unfolding escape_block replace_with
escape_other c s not_lt not_gt not_amp = ground arith

plain_escaped :
    (c : ℕ) (s : Text) {t : Text}
    → c ≢ b'\\'
    → Reads (escape_block s) t
    → Reads (escape_block (c ∷ s)) (c ∷ t)
unfolding escape_block replace_with
plain_escaped c s p h = elim (dec_eq c b'<') [
  | yes e ↦ rw e (lt h)
  | no not_lt ↦ elim (dec_eq c b'>') [
    | yes e ↦ rw e (gt h)
    | no not_gt ↦ elim (dec_eq c b'&') [
      | yes e ↦ rw e (amp h)
      | no not_amp ↦ rw (escape_other c s not_lt not_gt not_amp) (plain c p h)
    ]
  ]
]

escaped-Reads : {s t : Text} → Reads s t → Reads (escape_block s) t
unfolding escape_block replace_with
escaped-Reads done = done
escaped-Reads (plain {s} c p h) = plain_escaped c s p (escaped-Reads h)
escaped-Reads (lt h) = lt (escaped-Reads h)
escaped-Reads (gt h) = gt (escaped-Reads h)
escaped-Reads (amp h) = amp (escaped-Reads h)
escaped-Reads (pair {s} c not_lt not_gt not_amp h) =
    rw (escape_other c s not_lt not_gt not_amp) (pair c not_lt not_gt not_amp (escaped-Reads h))

clean : (c : ℕ) (s : Text) → contains_char c s ≡ false → Lacks c s
clean c s h = (contains_char-eq-false_iff c s).0 h

escape_block-Lacks :
    (s : Text)
    → Lacks b'<' (escape_block s) × (Lacks b'>' (escape_block s) × Lacks b'&' (escape_block s))
unfolding escape_block contains_char
escape_block-Lacks s =
    let lt_text = codes "\\u003c" in
    let gt_text = codes "\\u003e" in
    let amp_text = codes "\\u0026" in
    let one = replace_with b'<' lt_text s in
    let two = replace_with b'>' gt_text one in
    (
      replace_with_keeps-Lacks b'<' b'&' amp_text two (clean b'<' amp_text refl) (
          replace_with_keeps-Lacks b'<' b'>' gt_text one (clean b'<' gt_text refl)
            (replace_with-Lacks b'<' lt_text s (clean b'<' lt_text refl))),
      (
        replace_with_keeps-Lacks b'>' b'&' amp_text two (clean b'>' amp_text refl)
            (replace_with-Lacks b'>' gt_text one (clean b'>' gt_text refl)),
        replace_with-Lacks b'&' amp_text two (clean b'&' amp_text refl),
      ),
    )

module _ {T C : Type 0} (engine : Engine T C) where
  -- The block of a configuration has none of `<`, `>` and `&`, so that nothing in it closes the
  -- script element, and whatever the JSON of the configuration reads as, the block reads as too.
  pub json_for_script_block-Reads :
      (config : C) (json block t : Text)
      → engine.to_json config ≡ ok json
      → json_for_script_block engine config ≡ ok block
      → Reads json t
      → Lacks b'<' block × Lacks b'>' block × Lacks b'&' block × Reads block t
  unfolding json_for_script_block
  json_for_script_block-Reads config json block t made h r =
      let same : escape_block json ≡ block = ground (arith, made, h) in
      let (no_lt, (no_gt, no_amp)) = escape_block-Lacks json in
      rw (← same) (no_lt, no_gt, no_amp, escaped-Reads r)
