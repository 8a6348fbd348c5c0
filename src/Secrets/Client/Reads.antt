-- ===== src/Secrets/Client/Reads.antt =====
-- Where a secret that the client returns comes from.
use common_rust.Prelude.{
  ℕ, true, Option, none, some, [], ◌∷◌, ◌==◌, list_eq, nat_eq, ◌≡◌, refl, arith, ◌↔◌, Bool-cases,
  inl, inr, eq_iff, ap, sym, ◌∙◌,
}
use common_rust.Prelude.Dict.{Dict, insert, empty, or_else, or_else-none}
use common_rust.Prelude.Result.{Result, ok, err, bind-eq-ok}
use common_rust.Prelude.Text.{Text}
use common_rust.Secrets.Error.{Secret}
use common_rust.Secrets.Api.{
  Http, Config, Fields, Value, string, no_string, Reply, data_url, is_success, refused, read_reply,
  lookup, extracted, extract, collect_from, collect,
}
use common_rust.Secrets.Client.{SecretClient, get, secret_path, fetch}
use common_rust.Secrets.Client.Leases.{HoldsIssued, IsToken, with_reauth-IsToken}

read_reply-eq-ok :
    (status_text : ℕ → Text) (r : Result Text (Reply Fields)) {fields : Fields}
    → read_reply status_text r ≡ ok fields
    → (reply : Reply Fields) × (r ≡ ok reply)
      × (is_success reply.status ≡ true)
      × (reply.json ≡ ok fields)
unfolding read_reply refused
read_reply-eq-ok status_text (err e) h = cc
read_reply-eq-ok status_text (ok reply) h = (reply, refl, ground arith, ground arith)

abbrev as_secret : Text → Secret
as_secret t = record { expose = t }

extract-eq-ok :
    (fields : Fields) (key : Text) (s : Secret)
    → (extract fields key ≡ ok s) ↔ (lookup fields key ≡ some (string s.expose))
unfolding extract
extract-eq-ok fields key s = of_value (lookup fields key)
  where
    of_value : (v : Option Value) → (extracted key v ≡ ok s) ↔ (v ≡ some (string s.expose))
    of_value (some (string t)) = (
      λ e. let same : as_secret t ≡ s = cc e in ap (λ (r : Secret). some (string r.expose)) same,
      λ e. let same : t ≡ s.expose = cc e in ap (λ (x : Text). ok (as_secret x)) same,
    )
    of_value (some no_string) = ground arith
    of_value none = ground arith

-- The fields have different names.
abbrev pub Distinct : Fields → Type 0
Distinct [] = Unit
Distinct ((name, v) ∷ fields) = (lookup fields name ≡ none) × Distinct fields

abbrev secret_at : Option Value → Option Secret
secret_at (some (string s)) = some (record { expose = s })
secret_at (some no_string) = none
secret_at none = none

secret_at-extracted :
    (key : Text) (v : Option Value) (s : Secret) → (secret_at v ≡ some s) ↔ (extracted key v ≡ ok s)
secret_at-extracted key (some (string t)) s = (λ e. cc e, λ e. cc e)
secret_at-extracted key (some no_string) s = ground arith
secret_at-extracted key none s = ground arith

collect_from-lookup :
    (fields : Fields) (out : Dict Text Secret) {m : Dict Text Secret} (key : Text)
    → Distinct fields
    → collect_from fields out ≡ ok m
    → m key ≡ or_else (secret_at (lookup fields key)) (out key)
unfolding collect_from
collect_from-lookup [] out {m} key d h =
    let same : out ≡ m = cc h in ap (λ (f : Dict Text Secret). f key) (sym same)
collect_from-lookup ((name, string s) ∷ fields) out key (new, d) h =
    let rest = collect_from-lookup fields (insert name (record { expose = s }) out) key d h in
    elim (Bool-cases (name == key)) [
      | inl same ↦ ground (arith, rest, same, new, eq_iff name key)
      | inr different ↦ ground (arith, rest, different)
    ]
collect_from-lookup ((name, no_string) ∷ fields) out key (new, d) h = cc h

-- A document read as a whole has a secret at a key exactly when reading the key alone gives it, if
-- the names of its fields are different.
pub collect-extract :
    (fields : Fields) {m : Dict Text Secret} (key : Text) (s : Secret)
    → Distinct fields
    → collect fields ≡ ok m
    → (m key ≡ some s) ↔ (extract fields key ≡ ok s)
unfolding collect extract
collect-extract fields {m} key s d h =
    let at = collect_from-lookup fields empty key d h in
    let agree = secret_at-extracted key (lookup fields key) s in
    (λ e. agree.0 (sym (or_else-none _) ∙ sym at ∙ e), λ e. at ∙ or_else-none _ ∙ agree.1 e)

module _ {W : Type 0} (http : Http W) (config : Config) where
  -- The vault answered a read of the path, with a token that it had issued, by a document in which
  -- the key has this text.
  pub record IsStored (path key : Text) (s : Secret) : Type 0 where
    pub token : Text
    pub world : W
    pub reply : Reply Fields
    pub fields : Fields
    pub is_token : IsToken http config token
    pub is_reply : (http.get (data_url config.bao_addr path) token world).0 ≡ ok reply
    pub succeeded : is_success reply.status ≡ true
    pub is_json : reply.json ≡ ok fields
    pub is_field : lookup fields key ≡ some (string s.expose)

  -- If the cache holds nothing but an issued token, a secret that is returned is the text of its
  -- key in a document that the vault answered with: none is made up.
  pub fetch-IsStored :
      (service key : Text) (c : SecretClient W) (s : Secret)
      → HoldsIssued http config c.cache
      → (fetch http config service key c).0 ≡ ok s
      → IsStored (secret_path service key) key s
  unfolding fetch get
  fetch-IsStored service key c s h e =
      let (token, w, is_token, done) = with_reauth-IsToken http config _ c s h e in
      let (fields, got, taken) = bind-eq-ok _ _ done in
      let (reply, replied, succeeded, decoded_) = read_reply-eq-ok http.status_text _ got in
      record {
        token = token;
        world = w;
        reply = reply;
        fields = fields;
        is_token = is_token;
        is_reply = replied;
        succeeded = succeeded;
        is_json = decoded_;
        is_field = (extract-eq-ok fields key s).0 taken;
      }
