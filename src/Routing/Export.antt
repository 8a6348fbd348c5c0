-- ===== src/Routing/Export.antt =====
-- crates/routing/src/export.rs: the descriptors of handlers, and the file that every export test
-- adds its own to. Names and inlined forms of TypeScript types, JSON and the file are parameters.
pub mod Stored
use common_rust.Prelude.{
  ℕ, suc, Bool, true, false, not, ◌&&◌, ◌||◌, Option, none, some, List, [], ◌∷◌, ◌++◌, ◌==◌, nat_eq,
  list_eq, if◌then◌else◌, keep, any, ◌+◌, ◌-◌,
}
use common_rust.Prelude.Result.{Result, ok, err, ◌>>=◌}
use common_rust.Prelude.Text.{
  Text, codes, is_empty, strip_prefix, strip_suffix, split_once, trim, trim_end_matches,
}
use Prim.Native.Nat.{◌%◌, ◌^◌}
use common_rust.Prelude.Sort.{text_lt, insert_by, sort_by}

pub data Kind : Type 0 where
  path query body multipart : Kind

pub record Field : Type 0 where
  pub name : Text
  pub ts_type : Text

pub record Arg : Type 0 where
  pub name : Text
  pub kind : Kind
  pub ts_type : Text
  pub positions : Option (List Text)
  pub fields : Option (List Field)

pub data Response : Type 0 where
  json : Text → Response
  no_content link : Response

pub record Handler : Type 0 where
  pub fqname : Text
  pub name : Text
  pub args : List Arg
  pub response : Response

abbrev pub handler_before : Handler → Handler → Bool
handler_before a b = text_lt a.fqname b.fqname

-- The handlers of the file, with one more.
unfoldable pub with_handler : Handler → List Handler → List Handler
unfolding sort_by keep text_lt
with_handler handler handlers =
    sort_by handler_before (keep (λ h. not (h.fqname == handler.fqname)) handlers ++ handler ∷ [])

pub record Json : Type 0 where
  pub from_str : Text → Result Text (List Handler)
  pub to_string_pretty : List Handler → Result Text Text

abbrev handlers_in : Json → Text → Result Text (List Handler)
handlers_in codec text = if is_empty (trim text) then ok [] else codec.from_str text

-- `append_locked`: the text of the file before and after
unfoldable pub append_locked : Json → Handler → Text → Result Text Text
unfolding with_handler trim
append_locked codec handler text = do
  handlers ← handlers_in codec text
  out ← codec.to_string_pretty (with_handler handler handlers)
  ok (out ++ b'\n' ∷ [])
