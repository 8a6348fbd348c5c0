-- ===== src/Oidc/Client/Origins.antt =====
-- Where a client that is discovered sends its requests and its browsers.
use common_rust.Prelude.{
  Bool, false, Option, none, some, ◌≡◌, ◌⊎◌, refl, subst, ap, ◌∙◌, arith, inl, inr, Bool-cases,
}
use common_rust.Prelude.Result.{Result, ok, err, ◌>>=◌, bind-eq-ok}
use common_rust.Prelude.Text.{Text, codes}
use common_rust.Config.Class.{Deployment, prod, dev}
use common_rust.Oidc.Client.{
  Fault, Urls, OidcConfig, OidcClient, Reply, Http, expect_valid, swap_origin, back_of, raw_of,
  parsed, endpoint, end_session_as, end_session, from_document, document_of, fetched, discovered_at,
  http_built, built_as, is_refused, discover, discover_state,
}

module _ {U : Type 0} (urls : Urls U) where
  abbrev pub SameOrigin : U → U → Type 0
  SameOrigin u base =
      (urls.scheme u ≡ urls.scheme base)
      × (urls.host u ≡ urls.host base)
      × (urls.port u ≡ urls.port base)

  abbrev pub Within : U → Option U → Type 0
  Within base none = Unit {0}
  Within base (some u) = SameOrigin u base

  -- What the parts of an URL are after a change of one to the same part of another URL, `base`: a
  -- scheme that some URL has is taken as it is, and within one scheme so are a host and then a port
  -- that an URL of that scheme has. Nothing is said of other texts, which the library normalises.
  pub record IsUrls : Type 0 where
    pub scheme_set :
        (u v base : U)
        → urls.set_scheme u (urls.scheme base) ≡ some v
        → urls.scheme v ≡ urls.scheme base
    pub host_set :
        (u v base : U)
        → urls.scheme u ≡ urls.scheme base
        → urls.set_host u (urls.host base) ≡ some v
        → (urls.host v ≡ urls.host base) × (urls.scheme v ≡ urls.scheme u)
    pub port_set :
        (u v base : U)
        → urls.scheme u ≡ urls.scheme base
        → urls.set_port u (urls.port base) ≡ some v
        → (urls.port v ≡ urls.port base)
          × (urls.scheme v ≡ urls.scheme u)
          × (urls.host v ≡ urls.host u)

  expect_valid-eq-ok : (o : Option U) (u : U) → expect_valid o ≡ ok u → o ≡ some u
  expect_valid-eq-ok none u h = absurd (cc)
  expect_valid-eq-ok (some v) u h = cc

  swap_origin-SameOrigin :
      (u base out : U) → IsUrls → swap_origin urls u base ≡ ok out → SameOrigin out base
  unfolding swap_origin
  swap_origin-SameOrigin u base out laws h =
      let (a, first, more) = bind-eq-ok (expect_valid (urls.set_scheme u (urls.scheme base))) _ h in
      let (b, second, third) =
        bind-eq-ok (expect_valid (urls.set_host a (urls.host base))) _ more in
      let scheme = laws.scheme_set u a base (expect_valid-eq-ok _ a first) in
      let (host, kept) = laws.host_set a b base scheme (expect_valid-eq-ok _ b second) in
      let (port, kept', kept'') =
        laws.port_set b out base (kept ∙ scheme) (expect_valid-eq-ok _ out third) in
      (kept' ∙ kept ∙ scheme, kept'' ∙ host, port)

  endpoint-SameOrigin :
      (doc : Text → Option Text) (key : Text) (base u : U)
      → IsUrls
      → endpoint urls doc key base ≡ ok u
      → SameOrigin u base
  unfolding endpoint
  endpoint-SameOrigin doc key base u laws h =
      let (raw, _, more) = bind-eq-ok (raw_of urls key (doc key)) _ h in
      let (v, _, swapped) = bind-eq-ok (parsed urls key (urls.parse raw)) _ more in
      swap_origin-SameOrigin v base u laws swapped

  end_session_as-Within :
      (issuer : U) (r : Result Text U) (o : Option U)
      → IsUrls
      → end_session_as urls issuer r ≡ ok o
      → Within issuer o
  end_session_as-Within issuer (err e) o laws h = let is : none ≡ o = cc in rw (← is) tt
  end_session_as-Within issuer (ok u) o laws h =
      let (v, swapped, done) = bind-eq-ok (swap_origin urls u issuer) _ h in
      let is : some v ≡ o = cc in rw (← is) (swap_origin-SameOrigin u issuer v laws swapped)

  end_session-Within :
      (issuer : U) (raw : Option Text) (o : Option U)
      → IsUrls
      → end_session urls issuer raw ≡ ok o
      → Within issuer o
  end_session-Within issuer none o laws h = let is : none ≡ o = cc in rw (← is) tt
  end_session-Within issuer (some raw) o laws h =
      end_session_as-Within issuer (urls.parse raw) o laws h

  -- What is known of a client that was discovered for a configuration.
  pub record IsDiscovered (c : OidcConfig U) (client : OidcClient U) : Type 0 where
    pub authorizes : SameOrigin client.core.auth_uri c.issuer
    pub asks_tokens : SameOrigin client.core.token_uri (back_of urls c)
    pub asks_userinfo : SameOrigin client.core.user_info_url (back_of urls c)
    pub logs_out : Within c.issuer client.end_session_url
    pub secret : client.core.client_secret ≡ c.client_secret
    pub redirects : client.core.redirect_uri ≡ c.redirect_url

  from_document-IsDiscovered :
      (c : OidcConfig U) (doc : Text → Option Text) (client : OidcClient U)
      → IsUrls
      → from_document urls c doc ≡ ok client
      → IsDiscovered c client
  unfolding from_document
  from_document-IsDiscovered c doc client laws h =
      let (a, a_made, h₁) =
        bind-eq-ok (endpoint urls doc (codes "authorization_endpoint") c.issuer) _ h in
      let (t, t_made, h₂) =
        bind-eq-ok (endpoint urls doc (codes "token_endpoint") (back_of urls c)) _ h₁ in
      let (i, i_made, h₃) =
        bind-eq-ok (endpoint urls doc (codes "userinfo_endpoint") (back_of urls c)) _ h₂ in
      let (e, e_made, done) =
        bind-eq-ok (end_session urls c.issuer (doc (codes "end_session_endpoint"))) _ h₃ in
      let made : OidcClient U = record {
        core = record {
          client_id = c.client_id;
          issuer = c.issuer;
          auth_uri = a;
          token_uri = t;
          user_info_url = i;
          redirect_uri = c.redirect_url;
          client_secret = c.client_secret;
        };
        config = c;
        end_session_url = e;
      } in
      let is : made ≡ client = cc in
      subst (IsDiscovered c) is (record {
        authorizes = endpoint-SameOrigin doc _ c.issuer a laws a_made;
        asks_tokens = endpoint-SameOrigin doc _ (back_of urls c) t laws t_made;
        asks_userinfo = endpoint-SameOrigin doc _ (back_of urls c) i laws i_made;
        logs_out = end_session-Within c.issuer _ e laws e_made;
        secret = refl;
        redirects = refl;
      })

  module _ {W : Type 0} (http : Http W) where
    fetched-IsDiscovered :
        (c : OidcConfig U) (url : Text) (reply : Reply) (w w' : W) (client : OidcClient U)
        → IsUrls
        → fetched urls http c url (reply, w) ≡ (ok client, w')
        → IsDiscovered c client
    fetched-IsDiscovered c url reply w w' client laws h =
        let read : (document_of url reply >>= from_document urls c) ≡ ok client = ap (λ r. r.0) h in
        let (doc, _, made) = bind-eq-ok (document_of url reply) _ read in
        from_document-IsDiscovered c doc client laws made

    discovered_at-IsDiscovered :
        (c : OidcConfig U) (base : Result Fault U) (w w' : W) (client : OidcClient U)
        → IsUrls
        → discovered_at urls http c base w ≡ (ok client, w')
        → IsDiscovered c client
    discovered_at-IsDiscovered c (err e) w w' client laws h = absurd (cc)
    discovered_at-IsDiscovered c (ok base) w w' client laws h =
        fetched-IsDiscovered c _ _ _ w' client laws h

    built_as-IsDiscovered :
        (c : OidcConfig U) (built : Result Fault (Unit {0})) (w w' : W) (client : OidcClient U)
        → IsUrls
        → built_as urls http c built w ≡ (ok client, w')
        → IsDiscovered c client
    built_as-IsDiscovered c (err e) w w' client laws h = absurd (cc)
    built_as-IsDiscovered c (ok _) w w' client laws h =
        discovered_at-IsDiscovered c (swap_origin urls c.issuer (back_of urls c)) w w' client laws h

    not_refused :
        (d : Deployment) (danger : Bool)
        → is_refused urls http d danger ≡ false
        → (d ≡ dev) ⊎ (danger ≡ false)
    not_refused prod danger h = inr h
    not_refused dev danger h = inl refl

    -- If the URL library, asked to set the scheme, the host and the port of an URL to those of
    -- another URL, sets them so where it does not refuse, then a state that is discovered is one
    -- for development, or certificates are checked; and its client authorizes and logs out at the
    -- origin of the issuer, asks for tokens and userinfo at the origin of the back channel, which
    -- is the issuer's if none is given, and has the secret and the redirect of the configuration,
    -- whatever URLs the document of the IdP holds.
    pub discover_state-IsDiscovered :
        (c : OidcConfig U) (w w' : W) (client : OidcClient U)
        → IsUrls
        → discover_state urls http c w ≡ (ok client, w')
        → ((c.deployment ≡ dev) ⊎ (c.danger_accept_invalid_certs ≡ false)) × IsDiscovered c client
    unfolding discover_state discover
    discover_state-IsDiscovered c w w' client laws h =
        elim (Bool-cases (is_refused urls http c.deployment c.danger_accept_invalid_certs)) [
          | inl is ↦ absurd (ground (arith, h, is))
          | inr is_not ↦ (
            not_refused c.deployment c.danger_accept_invalid_certs is_not,
            built_as-IsDiscovered c (http_built (http.builds c.danger_accept_invalid_certs)) w w'
                client laws (ground (arith, h, is_not)),
          )
        ]
