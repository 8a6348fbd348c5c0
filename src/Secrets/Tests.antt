-- ===== src/Secrets/Tests.antt =====
-- A vault that issues one token, and the theorems on the client applied to it. The world is the
-- clock, which every request to the vault's documents advances.
use common_rust.Prelude.{
  ℕ, suc, ◌+◌, ◌<◌, some, [], ◌∷◌, ltb, ◌==◌, list_eq, nat_eq, list_beq, ◌≡◌, refl, arith, ◌⊎◌,
  if◌then◌else◌,
}
use common_rust.Prelude.Dict.{Dict, insert, empty}
use common_rust.Prelude.Result.{Result, ok, err}
use common_rust.Prelude.Text.{Text, codes, decimal}
use common_rust.Secrets.Error.{Error, Secret}
use common_rust.Secrets.Api.{Http, Config, Reply, Fields, string, collect}
use common_rust.Secrets.Client.{
  lease_skew, Cached, SecretClient, login, store_login, cached_token, with_reauth, secret_path,
  fetch, vault_login, get,
}
use common_rust.Secrets.Client.Leases.{
  HoldsIssued, IsIssued, cached_token_before_lease, with_reauth-HoldsIssued,
}
use common_rust.Secrets.Client.Retries.{rejected_read, IsRefused, reported_rejection}
use common_rust.Secrets.Client.Reads.{Distinct, IsStored, fetch-IsStored}

abbrev document : Fields
document = (codes "user", string (codes "ada")) ∷ (codes "key", string (codes "s3")) ∷ []

abbrev answer : {B : Type 0} → B → Result Text (Reply B)
answer b = ok (record { status = 200; json = ok b })

abbrev refusal : {B : Type 0} → Result Text (Reply B)
refusal = ok (record { status = 403; json = err (codes "no body") })

abbrev sample_http : Http ℕ
sample_http = record {
  clock = λ w. w;
  is_instant = λ t. ltb t 1000;
  status_text = decimal;
  post_form = λ url form w. (answer (codes "jwt"), w);
  post_login =
      λ url role jwt w. (answer (record { client_token = codes "t1"; lease_duration = 60 }), w);
  get = λ url token w. (if token == codes "t1" then answer document else refusal, suc w);
  post = λ url token body w. (ok 200, suc w);
  delete = λ url token w. (ok 404, suc w);
}

abbrev sample_config : Config
sample_config = record {
  authentik_token_url = codes "https://idp/token";
  client_id = codes "id";
  service_account = codes "svc";
  app_password = codes "pw";
  scope = codes "openid";
  bao_addr = codes "https://vault/";
  jwt_role = codes "role";
}

abbrev issued_token : Cached
issued_token = record { value = codes "t1"; expires_at = 70 }

-- A client whose token was issued at 20 and whose lease the clock has not reached the end of.
abbrev with_token : SecretClient ℕ
with_token = record { cache = some issued_token; world = 30 }

token-IsIssued : IsIssued sample_http sample_config issued_token
unfolding vault_login
token-IsIssued =
    (codes "jwt", 20, record { client_token = codes "t1"; lease_duration = 60 }, refl, refl, refl)

cached_token_before_lease_example :
    (cached_token sample_http sample_config with_token
      ≡ store_login sample_http sample_config
          (some issued_token)
          (login sample_http sample_config 30))
    ⊎ ((cached_token sample_http sample_config with_token ≡ (ok (codes "t1"), with_token))
        × (30 + lease_skew < 20 + 60))
cached_token_before_lease_example =
    cached_token_before_lease sample_http sample_config issued_token 30 20 60 refl (omega arith)

abbrev read_document : Text → ℕ → Result Error Fields × ℕ
read_document = get sample_http sample_config (codes "services/mail/key")

with_reauth-HoldsIssued_example :
    HoldsIssued sample_http sample_config
      (with_reauth sample_http sample_config read_document with_token).1.cache
with_reauth-HoldsIssued_example =
    with_reauth-HoldsIssued sample_http sample_config read_document with_token token-IsIssued

-- An operation that every token is refused for.
abbrev refusing : Text → ℕ → Result Error Secret × ℕ
refusing token w = (err rejected_read, suc w)

refused_twice : (with_reauth sample_http sample_config refusing with_token).0 ≡ err rejected_read
unfolding with_reauth
refused_twice = refl

reported_rejection_example : IsRefused sample_http sample_config refusing
reported_rejection_example =
    reported_rejection sample_http sample_config refusing with_token refused_twice

sample_fetch :
    (fetch sample_http sample_config (codes "mail") (codes "key") with_token).0
    ≡ ok (record { expose = codes "s3" })
unfolding fetch list_beq
sample_fetch = refl

fetch-IsStored_example :
    IsStored sample_http sample_config
      (secret_path (codes "mail") (codes "key"))
      (codes "key")
      (record { expose = codes "s3" })
fetch-IsStored_example =
    fetch-IsStored sample_http sample_config (codes "mail") (codes "key") with_token
      (record { expose = codes "s3" }) token-IsIssued sample_fetch

document-Distinct : Distinct document
unfolding list_beq
document-Distinct = (refl, (refl, tt))

abbrev as_map : Dict Text Secret
as_map =
    insert (codes "key") (record { expose = codes "s3" })
      (insert (codes "user") (record { expose = codes "ada" }) empty)

sample_collect : collect document ≡ ok as_map
unfolding collect
sample_collect = refl
