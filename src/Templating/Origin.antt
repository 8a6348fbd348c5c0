-- ===== src/Templating/Origin.antt =====
-- crates/templating/src/assets_origin.rs: the origin of assets, and its place in the policy that a
-- shell declares.
pub mod Accepted
use common_rust.Prelude.{
  ℕ, Bool, true, false, not, ◌&&◌, ◌||◌, Option, none, some, List, [], ◌∷◌, ◌++◌, all, leb, is_eq,
  if◌then◌else◌,
}
use common_rust.Prelude.Result.{Result, ok, err}
use common_rust.Prelude.Text.{
  Text, codes, is_empty, strip_prefix, ends_with_char, contains_char, contains, replace,
}
use common_rust.Config.Refusal.{Refusal, new, with_detail}
use common_rust.Config.Class.{Deployment, prod, dev}

abbrev pub variable : Text
variable = codes "ASSETS_ORIGIN"

abbrev pub marker : Text
marker = codes "{{assets_origin}}"

abbrev accepted_policy : Text
accepted_policy =
    codes
      "the `csp` field from the shell-markers.json you vendored, which contains {{assets_origin}} where the asset origin goes"

abbrev accepted : Text
accepted =
    codes
      "an https origin and nothing else, such as \"https://assets.dev.local\" — no path, no port, no trailing slash, no credentials"

pub record AssetsOrigin : Type 0 where
  pub as_str : Text

-- `char::is_ascii_alphanumeric`, and the two marks that a host may have.
abbrev pub is_ascii_alphanumeric : ℕ → Bool
is_ascii_alphanumeric c =
    (leb b'0' c && leb c b'9') || (leb b'A' c && leb c b'Z') || (leb b'a' c && leb c b'z')

unfoldable pub is_host_char : ℕ → Bool
is_host_char c = is_ascii_alphanumeric c || is_eq c b'.' || is_eq c b'-'

-- the closure `refuse`
abbrev pub refuse {ℓ} : {A : Type ℓ} → Text → Text → Result Refusal A
refuse text detail = err (with_detail (new variable text accepted) detail)

unfoldable pub parse_host : Text → Text → Result Refusal (Option AssetsOrigin)
unfolding ends_with_char contains_char is_host_char all
parse_host text host =
    if is_empty host
    then refuse text (codes "no host after https://")
    else if ends_with_char b'/' host || contains_char b'/' host
    then refuse text (codes "a path or trailing slash is present")
    else if contains_char b'@' host
    then refuse text (codes "credentials are present")
    else if contains_char b':' host
    then refuse text (codes "a port is present")
    else if contains_char b'?' host || contains_char b'#' host
    then refuse text (codes "a query or fragment is present")
    else if not (all is_host_char host)
    then refuse text (codes "the host has a character that is not a letter, digit, dot or hyphen")
    else ok (some (record { as_str = text }))

abbrev pub parse_stripped : Text → Option Text → Result Refusal (Option AssetsOrigin)
parse_stripped text none = refuse text (codes "must begin with https://")
parse_stripped text (some host) = parse_host text host

abbrev pub parse_unset : Deployment → Result Refusal (Option AssetsOrigin)
parse_unset prod = err (
    with_detail (new variable [] accepted)
      (codes "prod-required: unset is allowed only under DEPLOYMENT_TYPE=dev"))
parse_unset dev = ok none

unfoldable pub parse : Option Text → Deployment → Result Refusal (Option AssetsOrigin)
unfolding parse_host strip_prefix
parse none deployment = parse_unset deployment
parse (some text) deployment =
    if is_empty text
    then parse_unset deployment
    else parse_stripped text (strip_prefix (codes "https://") text)

-- The policy that a shell declares, with the origin in the place of the marker.
unfoldable pub csp : AssetsOrigin → Text → Result Refusal Text
unfolding contains replace
csp origin declared =
    if not (contains marker declared)
    then err (
        with_detail (new (codes "shell-markers.json#csp") declared accepted_policy)
          (codes "no {{assets_origin}} in the declared policy"))
    else ok (replace marker origin.as_str declared)
