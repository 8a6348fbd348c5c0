-- ===== src/ClientMacro/Template.antt =====
-- crates/routing-macros/src/parse.rs: the attribute and the parameters that its template declares. An
-- error's text is the source's.
use common_rust.Prelude.{
  ℕ, suc, zero, Bool, true, false, not, ◌&&◌, ◌||◌, Option, none, some, List, [], ◌∷◌, ◌++◌, ◌==◌,
  list_eq, nat_eq, if◌then◌else◌, leb, all, any, length,
}
use common_rust.Prelude.Result.{Result, ok, err, ◌>>=◌}
use common_rust.Prelude.Text.{Text, codes, is_empty, trim, join, split_once}
use common_rust.Macros.{
  Meta, MetaValue, flag, literal, expression, list, MacroError, refused, syntax, unfinished,
  fold_metas,
}

pub record Attr : Type 0 where
  pub link : Bool
  pub path : Option Text

abbrev pub declarable : List Text
declarable = codes "string" ∷ codes "number" ∷ codes "boolean" ∷ codes "bigint" ∷ []

-- The text that every error on a template starts with.
abbrev on_template : Text → Text → MacroError
on_template template what =
    refused (codes "#[client(path = \"" ++ (template ++ (codes "\")]: " ++ what)))

abbrev braces : Text → Text
braces t = codes "`{" ++ (t ++ codes "}`")

abbrev pub is_digit : ℕ → Bool
is_digit c = leb b'0' c && leb c b'9'

abbrev pub is_name_char : ℕ → Bool
is_name_char c =
    (leb b'a' c && leb c b'z') || ((leb b'A' c && leb c b'Z') || (is_digit c || (c == b'_')))

abbrev starts_digit : Text → Bool
starts_digit [] = false
starts_digit (c ∷ s) = is_digit c

unfoldable pub is_usable : Text → Bool
unfolding all
is_usable name = not (is_empty name || (not (all is_name_char name) || starts_digit name))

-- the name and the type of the text between braces
abbrev pub name_and_type : Text → Option (Text × Text) → Text × Text
name_and_type body none = (trim body, codes "string")
name_and_type body (some (n, t)) = (trim n, trim t)

abbrev pub is_declarable : Text → Bool
is_declarable ts = any (λ t. t == ts) declarable

abbrev pub is_declared : Text → List (Text × Text) → Bool
is_declared name out = any (λ p. p.0 == name) out

-- the checks on one parameter
abbrev pub with_param :
    Text → Text → Text × Text → List (Text × Text) → Result MacroError (List (Text × Text))
with_param template body (name, ts) out =
    if not (is_usable name)
    then err (on_template template (braces body ++ codes " is not a usable parameter name"))
    else if not (is_declarable ts)
    then err (
        on_template template (
          braces body
          ++ (codes " asks for TypeScript type `"
              ++ (ts ++ (codes "` — accepted: " ++ join (codes ", ") declarable)))))
    else if is_declared name out
    then err (on_template template (braces name ++ codes " is declared twice"))
    else ok (out ++ (name, ts) ∷ [])

abbrev unclosed : Text → MacroError
unclosed template = on_template template (codes "unclosed `{` in the template")

-- Where the next parameter stands: there is none, it is not closed, or it is the text between the
-- braces and the rest of the template.
pub data Next : Type 0 where
  done unclosed_brace : Next
  param : Text → Text → Next

abbrev pub closed_at : Option (Text × Text) → Next
closed_at none = unclosed_brace
closed_at (some (body, rest)) = param body rest

abbrev pub opened_at : Option (Text × Text) → Next
opened_at none = done
opened_at (some (before, after)) = closed_at (split_once b'}' after)

unfoldable pub next : Text → Next
unfolding split_once
next rest = opened_at (split_once b'{' rest)

-- The body of the loop; `more` is the loop on what is left.
abbrev pub round :
    Text
    → (Text → List (Text × Text) → Result MacroError (List (Text × Text)))
    → List (Text × Text)
    → Next
    → Result MacroError (List (Text × Text))
round template more out done = ok out
round template more out unclosed_brace = err (unclosed template)
round template more out (param body rest) =
    with_param template body (name_and_type body (split_once b':' body)) out >>= more rest

-- The loop of `declared_params`: every round takes its braces off the rest.
unfoldable pub params_from :
    ℕ → Text → Text → List (Text × Text) → Result MacroError (List (Text × Text))
unfolding next is_usable any trim join
params_from zero template rest out = err unfinished
params_from (suc n) template rest out = round template (params_from n template) out (next rest)

unfoldable pub declared_params : Text → Result MacroError (List (Text × Text))
unfolding params_from
declared_params template = params_from (suc (length template)) template template []

abbrev unknown_option : MacroError
unknown_option =
    refused (codes "#[client]: unknown option — accepted: `link`, `path = \"/a/{param}\"`")

abbrev path_value : MetaValue → Attr → Result MacroError Attr
path_value (literal s) out = ok (record out { path = some s })
path_value expression out =
    err (refused (codes "#[client(path = …)]: expected a string literal, the route template"))
path_value flag out = err unknown_option
path_value list out = err unknown_option

abbrev link_value : MetaValue → Attr → Result MacroError Attr
link_value flag out = ok (record out { link = true })
link_value (literal s) out = err unknown_option
link_value expression out = err unknown_option
link_value list out = err unknown_option

abbrev pub attr_meta : Meta → Attr → Result MacroError Attr
attr_meta m out =
    if m.key == codes "link"
    then link_value m.value out
    else if m.key == codes "path"
    then path_value m.value out
    else err unknown_option

abbrev no_params : Text → MacroError
no_params template =
    on_template template
      (codes "the template declares no `{param}` — a handler with no path params does not need it")

abbrev pub checked_path : Attr → Option Text → Result MacroError Attr
checked_path out none = ok out
checked_path out (some template) = do
  params ← declared_params template
  if is_empty params then err (no_params template) else ok out

abbrev pub metas_of : Option (List Meta) → Result MacroError (List Meta)
metas_of none = err syntax
metas_of (some metas) = ok metas

-- The attribute is given as its options; `none` is one that cannot be read as such.
unfoldable pub parse_attr : Option (List Meta) → Result MacroError Attr
unfolding fold_metas declared_params
parse_attr attr = do
  metas ← metas_of attr
  out ← fold_metas attr_meta metas (record { link = false; path = none })
  checked_path out out.path
