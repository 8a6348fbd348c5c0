-- ===== src/Secrets/Api.antt =====
-- crates/secrets/src/client.rs: the requests to authentik and OpenBao, and what their replies are
-- taken for. Sending a request and decoding a body are a record of functions; a JSON object is the
-- list of its fields, each name once.
use common_rust.Prelude.{
  ℕ, Bool, not, ◌&&◌, ◌||◌, Option, none, some, List, [], ◌∷◌, ◌++◌, ◌==◌, list_eq, nat_eq, leb,
  is_eq, if◌then◌else◌,
}
use common_rust.Prelude.Dict.{Dict, insert, empty}
use common_rust.Prelude.Result.{Result, ok, err}
use common_rust.Prelude.Text.{Text, codes, trim_end_matches, trim_start_matches}
use common_rust.Secrets.Error.{Stage, Error, network, auth_rejected, not_found, upstream, Secret}

pub data Value : Type 0 where
  string : Text → Value
  no_string : Value

abbrev pub Fields : Type 0
Fields = List (Text × Value)

pub record VaultAuth : Type 0 where
  pub client_token : Text
  pub lease_duration : ℕ

pub record Reply (B : Type 0) : Type 0 where
  pub status : ℕ
  pub json : Result Text B

pub record Http (W : Type 0) : Type 0 where
  pub clock : W → ℕ
  pub is_instant : ℕ → Bool
  pub status_text : ℕ → Text
  pub post_form : Text → List (Text × Text) → W → Result Text (Reply Text) × W
  pub post_login : Text → Text → Text → W → Result Text (Reply VaultAuth) × W
  pub get : Text → Text → W → Result Text (Reply Fields) × W
  pub post : Text → Text → Dict Text Text → W → Result Text ℕ × W
  pub delete : Text → Text → W → Result Text ℕ × W

pub record Config : Type 0 where
  pub authentik_token_url : Text
  pub client_id : Text
  pub service_account : Text
  pub app_password : Text
  pub scope : Text
  pub bao_addr : Text
  pub jwt_role : Text

unfoldable pub token_form : Text → Text → Text → Text → List (Text × Text)
token_form client_id username password scope =
    (codes "grant_type", codes "client_credentials")
    ∷ (codes "client_id", client_id)
    ∷ (codes "username", username)
    ∷ (codes "password", password)
    ∷ (codes "scope", scope)
    ∷ []

abbrev pub is_slash : ℕ → Bool
is_slash c = is_eq c b'/'

unfoldable pub login_url : Text → Text
unfolding trim_end_matches
login_url bao_addr = trim_end_matches is_slash bao_addr ++ codes "/v1/auth/jwt/login"

unfoldable pub data_url : Text → Text → Text
unfolding trim_end_matches trim_start_matches
data_url bao_addr path =
    trim_end_matches is_slash bao_addr ++ (codes "/v1/kv/data/" ++ trim_start_matches is_slash path)

unfoldable pub metadata_url : Text → Text → Text
unfolding trim_end_matches trim_start_matches
metadata_url bao_addr path =
    trim_end_matches is_slash bao_addr
    ++ (codes "/v1/kv/metadata/" ++ trim_start_matches is_slash path)

-- `status.is_success()` and `AUTH_REJECT.contains(&status)`
abbrev pub is_success : ℕ → Bool
is_success s = leb 200 s && leb s 299

abbrev pub is_reject : ℕ → Bool
is_reject s = is_eq s 400 || is_eq s 401 || is_eq s 403

-- What a failed status is taken for, with the word that each request has for it.
unfoldable pub refused : {B : Type 0} → Stage → Text → (ℕ → Text) → ℕ → Result Error B
refused stage what status_text s =
    if is_reject s
    then err (auth_rejected stage)
    else err (upstream stage (what ++ (codes " returned " ++ status_text s)))

-- `map_err` of sending, the test of the status, and `map_err` of decoding.
abbrev pub decoded : {B : Type 0} → Stage → Text → Result Text B → Result Error B
decoded stage payload (ok b) = ok b
decoded stage payload (err e) =
    err (upstream stage (codes "invalid " ++ (payload ++ (codes " payload: " ++ e))))

unfoldable pub accepted :
    {B : Type 0} → Stage → Text → Text → (ℕ → Text) → Result Text (Reply B) → Result Error B
unfolding refused
accepted stage what payload status_text (err e) = err (network stage e)
accepted stage what payload status_text (ok r) =
    if is_success r.status
    then decoded stage payload r.json
    else refused stage what status_text r.status

unfoldable pub read_reply : (ℕ → Text) → Result Text (Reply Fields) → Result Error Fields
unfolding accepted refused
read_reply status_text (err e) = err (network Stage.vault_read e)
read_reply status_text (ok r) =
    if is_success r.status
    then decoded Stage.vault_read (codes "kv") r.json
    else if is_eq r.status 404
    then err not_found
    else refused Stage.vault_read (codes "kv read") status_text r.status

unfoldable pub write_reply : (ℕ → Text) → Result Text ℕ → Result Error (Unit {0})
unfolding refused
write_reply status_text (err e) = err (network Stage.vault_read e)
write_reply status_text (ok s) =
    if is_success s then ok tt else refused Stage.vault_read (codes "kv write") status_text s

unfoldable pub delete_reply : (ℕ → Text) → Result Text ℕ → Result Error (Unit {0})
unfolding refused
delete_reply status_text (err e) = err (network Stage.vault_read e)
delete_reply status_text (ok s) =
    if not (is_success s) && not (is_eq s 404)
    then refused Stage.vault_read (codes "kv delete") status_text s
    else ok tt

abbrev pub lookup : Fields → Text → Option Value
lookup [] key = none
lookup ((name, v) ∷ fields) key = if name == key then some v else lookup fields key

abbrev not_a_string : Text → Error
not_a_string name =
    upstream Stage.vault_read (codes "value at " ++ (name ++ codes " is not a string"))

abbrev pub extracted : Text → Option Value → Result Error Secret
extracted key (some (string s)) = ok (record { expose = s })
extracted key (some no_string) = err (not_a_string key)
extracted key none = err not_found

unfoldable pub extract : Fields → Text → Result Error Secret
extract fields key = extracted key (lookup fields key)

unfoldable pub collect_from : Fields → Dict Text Secret → Result Error (Dict Text Secret)
collect_from [] out = ok out
collect_from ((name, string s) ∷ fields) out =
    collect_from fields (insert name (record { expose = s }) out)
collect_from ((name, no_string) ∷ fields) out = err (not_a_string name)

unfoldable pub collect : Fields → Result Error (Dict Text Secret)
unfolding collect_from
collect fields = collect_from fields empty
