-- ===== src/Routing/Tests/Codec.antt =====
-- A codec of handlers that reads back what it writes: a list is written after its length.
use common_rust.Prelude.{
  ℕ, zero, suc, false, Option, none, some, List, [], ◌∷◌, ◌++◌, length, ◌≡◌, refl, ap, ◌∙◌,
}
use common_rust.Prelude.Result.{Result, ok, err}
use mathlib.Core.List.{reverse, reverse-append}
use common_rust.Prelude.Text.{
  Text, codes, is_empty, trim, trim_start_matches, trim_end_matches, is_whitespace,
}
use common_rust.Prelude.Text.Laws.{trim_start-append}
use common_rust.Routing.Export.{Kind, Field, Arg, Response, Handler, Json}
use common_rust.Routing.Export.Stored.{IsJson}

record Code (A : Type 0) : Type 0 where
  enc : A → Text → Text
  dec : Text → Option (A × Text)
  law : (a : A) (rest : Text) → dec (enc a rest) ≡ some (a, rest)

abbrev and_then : {A B : Type 0} → Option (A × Text) → (A → Text → Option B) → Option B
and_then none f = none
and_then (some (a, s)) f = f a s

abbrev read_number : Text → Option (ℕ × Text)
read_number [] = none
read_number (n ∷ s) = some (n, s)

abbrev number : Code ℕ
number = record { enc = λ n rest. n ∷ rest; dec = read_number; law = λ n rest. refl }

module _ {A B : Type 0} where
  pair_law :
      (a : Code A) (b : Code B) (p : A × B) (rest : Text)
      → and_then
          (a.dec (a.enc p.0 (b.enc p.1 rest)))
          (λ x s. and_then {B = (A × B) × Text} (b.dec s) (λ y u. some ((x, y), u)))
        ≡ some (p, rest)
  pair_law a b p rest = rw (a.law p.0 (b.enc p.1 rest), b.law p.1 rest) refl

  abbrev both : Code A → Code B → Code (A × B)
  both a b = record {
    enc = λ p rest. a.enc p.0 (b.enc p.1 rest);
    dec = λ s. and_then (a.dec s) (λ x s'. and_then (b.dec s') (λ y u. some ((x, y), u)));
    law = pair_law a b;
  }

  via_law :
      (a : Code A) (to : B → A) (from : A → B)
      → ((b : B) → from (to b) ≡ b)
      → (b : B) (rest : Text)
      → and_then {B = B × Text} (a.dec (a.enc (to b) rest)) (λ x s. some (from x, s))
        ≡ some (b, rest)
  via_law a to from back b rest = rw (a.law (to b) rest, back b) refl

  abbrev via : Code A → (to : B → A) (from : A → B) → ((b : B) → from (to b) ≡ b) → Code B
  via a to from back = record {
    enc = λ b rest. a.enc (to b) rest;
    dec = λ s. and_then (a.dec s) (λ x u. some (from x, u));
    law = via_law a to from back;
  }

module _ {A : Type 0} (a : Code A) where
  abbrev write_all : List A → Text → Text
  write_all [] rest = rest
  write_all (x ∷ xs) rest = a.enc x (write_all xs rest)

  abbrev read_all : ℕ → Text → Option (List A × Text)
  read_all zero s = some ([], s)
  read_all (suc n) s =
      and_then (a.dec s) (λ x s'. and_then (read_all n s') (λ xs u. some (x ∷ xs, u)))

  abbrev read_list : Text → Option (List A × Text)
  read_list [] = none
  read_list (n ∷ s) = read_all n s

  list_law :
      (xs : List A) (rest : Text) → read_all (length xs) (write_all xs rest) ≡ some (xs, rest)
  list_law [] rest = refl
  list_law (x ∷ xs) rest = rw (a.law x (write_all xs rest), list_law xs rest) refl

  abbrev many : Code (List A)
  many = record { enc = λ xs rest. length xs ∷ write_all xs rest; dec = read_list; law = list_law }

  abbrev to_list : Option A → List A
  to_list none = []
  to_list (some x) = x ∷ []

  abbrev to_option : List A → Option A
  to_option [] = none
  to_option (x ∷ xs) = some x

  option_back : (o : Option A) → to_option (to_list o) ≡ o
  option_back none = refl
  option_back (some x) = refl

  abbrev maybe : Code (Option A)
  maybe = via many to_list to_option option_back

abbrev text : Code Text
text = many number

abbrev kind_number : Kind → ℕ
kind_number Kind.path = 0
kind_number Kind.query = 1
kind_number Kind.body = 2
kind_number Kind.multipart = 3

abbrev kind_of : ℕ → Kind
kind_of zero = Kind.path
kind_of (suc zero) = Kind.query
kind_of (suc (suc zero)) = Kind.body
kind_of _ = Kind.multipart

kind_back : (k : Kind) → kind_of (kind_number k) ≡ k
kind_back Kind.path = refl
kind_back Kind.query = refl
kind_back Kind.body = refl
kind_back Kind.multipart = refl

abbrev response_pair : Response → ℕ × Text
response_pair (Response.json t) = (0, t)
response_pair Response.no_content = (1, [])
response_pair Response.link = (2, [])

abbrev response_of : ℕ × Text → Response
response_of (zero, t) = Response.json t
response_of (suc zero, t) = Response.no_content
response_of (suc (suc n), t) = Response.link

response_back : (r : Response) → response_of (response_pair r) ≡ r
response_back (Response.json t) = refl
response_back Response.no_content = refl
response_back Response.link = refl

abbrev field_code : Code Field
field_code =
    via (both text text) (λ f. (f.name, f.ts_type)) (λ p. record { name = p.0; ts_type = p.1 })
      (λ f. refl)

abbrev ArgParts : Type 0
ArgParts = (Text × Text) × ((Kind × Option (List Text)) × Option (List Field))

abbrev arg_code : Code Arg
arg_code =
    via
      (both (both text text) (
        both (both (via number kind_number kind_of kind_back) (maybe (many text)))
          (maybe (many field_code))))
      (λ (g : Arg). ((g.name, g.ts_type), ((g.kind, g.positions), g.fields)))
      (λ (p : ArgParts). record {
        name = p.0.0;
        ts_type = p.0.1;
        kind = p.1.0.0;
        positions = p.1.0.1;
        fields = p.1.1;
      })
      (λ g. refl)

abbrev HandlerParts : Type 0
HandlerParts = (Text × Text) × (List Arg × Response)

abbrev handler_code : Code Handler
handler_code =
    via
      (both (both text text)
        (both (many arg_code) (via (both number text) response_pair response_of response_back)))
      (λ (h : Handler). ((h.fqname, h.name), (h.args, h.response)))
      (λ (p : HandlerParts). record {
        fqname = p.0.0;
        name = p.0.1;
        args = p.1.0;
        response = p.1.1;
      })
      (λ h. refl)

abbrev read_handlers : Option (List Handler × Text) → Result Text (List Handler)
read_handlers none = err (codes "no handlers")
read_handlers (some (hs, s)) = ok hs

bracket_stays : (s : Text) → trim_start_matches is_whitespace (b'[' ∷ s) ≡ b'[' ∷ s
unfolding trim_start_matches is_whitespace
bracket_stays s = refl

abbrev drop_last : Text → Text
drop_last [] = []
drop_last (c ∷ []) = []
drop_last (c ∷ (d ∷ s)) = c ∷ drop_last (d ∷ s)

drop_last-append : (s : Text) (c : ℕ) → drop_last (s ++ c ∷ []) ≡ s
drop_last-append [] c = refl
drop_last-append (a ∷ []) c = refl
drop_last-append (a ∷ (b ∷ s)) c = ap (λ t. a ∷ t) (drop_last-append (b ∷ s) c)

abbrev from_text : Text → Result Text (List Handler)
from_text [] = err (codes "no handlers")
from_text (c ∷ s) = read_handlers ((many handler_code).dec (drop_last s))

abbrev to_text : List Handler → Text
to_text hs = b'[' ∷ (many handler_code).enc hs []

pub sample_json : Json
sample_json = record { from_str = from_text; to_string_pretty = λ hs. ok (to_text hs) }

bracket_not_blank : (s : Text) → is_empty (trim (b'[' ∷ s)) ≡ false
unfolding trim trim_end_matches is_whitespace
bracket_not_blank s =
    let last : Text = b'[' ∷ [] in
    let starts : trim_start_matches is_whitespace (b'[' ∷ s) ≡ b'[' ∷ s = bracket_stays s in
    let backward : trim_start_matches is_whitespace (reverse (b'[' ∷ s))
        ≡ trim_start_matches is_whitespace (reverse s) ++ last =
      ap (trim_start_matches is_whitespace) (reverse-append last s)
      ∙ trim_start-append is_whitespace (reverse s) last (bracket_stays []) in
    ap (λ t. is_empty (reverse (trim_start_matches is_whitespace (reverse t)))) starts
    ∙ ap (λ t. is_empty (reverse t)) backward
    ∙ ap is_empty (reverse-append (trim_start_matches is_whitespace (reverse s)) last)

pub sample_json-IsJson : IsJson sample_json
unfolding sample_json
sample_json-IsJson = record {
  pretty = to_text;
  prints = λ hs. refl;
  reads = λ hs.
      ap (λ s. read_handlers ((many handler_code).dec s))
        (drop_last-append ((many handler_code).enc hs []) b'\n')
      ∙ ap read_handlers ((many handler_code).law hs []);
  not_blank = λ hs. bracket_not_blank _;
}
