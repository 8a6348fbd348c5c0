-- ===== src/Oidc/Web/Logout.antt =====
-- What logging out does, and for whom.
use common_rust.Prelude.{
  true, Option, none, some, ◌==◌, list_eq, nat_eq, if◌then◌else◌, ◌≡◌, refl, arith, eq_iff,
  Bool-cases, ◌⊎◌, inl, inr, ◌↔◌,
}
use common_rust.Prelude.Dict.{Dict}
use common_rust.Prelude.Text.{Text, codes}
use common_rust.Oidc.Store
use common_rust.Oidc.Store.{Session, Expiring}
use common_rust.Oidc.Idp.{OidcConfig, Idp, Server, Request}
use common_rust.Oidc.Session.{}
use common_rust.Oidc.Web.{from_this_site, logout}

module _ {W : Type 0} (idp : Idp W) (config : OidcConfig) where
  -- The browser says so itself, or it says nothing and the origin is the application's.
  abbrev pub CameFromHere : Request → Type 0
  CameFromHere r =
      (r.sec_fetch_site ≡ some (codes "same-origin"))
      ⊎ ((r.sec_fetch_site ≡ none) × (r.origin ≡ some config.app_origin))

  came_from_here :
      (site origin : Option Text) (r : Request)
      → r.sec_fetch_site ≡ site
      → r.origin ≡ origin
      → (from_this_site idp config r ≡ true) ↔ CameFromHere r
  unfolding from_this_site
  came_from_here (some site) origin r e f = ground (arith, e, f, eq_iff site (codes "same-origin"))
  came_from_here none (some origin) r e f = ground (arith, e, f, eq_iff origin config.app_origin)
  came_from_here none none r e f = ground (arith, e, f)

  forgets :
      (sid id : Text) (s : Expiring Session)
      → (Store.remove s sid).entries id ≡ (if sid == id then none else s.entries id)
  unfolding Store.remove
  forgets sid id s = ground arith

  -- Logging out with a session cookie does one of two things. Either the browser says that the
  -- request came from this site, or says nothing and the origin is the application's: then the
  -- server forgets the browser's session and no other. Or neither holds: then nothing changes, and
  -- the answer is 403.
  pub logout_effect :
      (jar : Dict Text Text) (r : Request) (v : Server W) (sid id : Text)
      → jar config.cookie_name ≡ some sid
      → (CameFromHere r
          × ((logout idp config jar r v).1.sessions.entries id
              ≡ (if sid == id then none else v.sessions.entries id)))
        ⊎ ((¬ CameFromHere r)
            × ((logout idp config jar r v).1 ≡ v)
            × ((logout idp config jar r v).0.status ≡ 403))
  unfolding logout
  logout_effect jar r v sid id has =
      let (seen, shown) = came_from_here r.sec_fetch_site r.origin r refl refl in
      elim (Bool-cases (from_this_site idp config r)) [
        | inl here ↦ inl (seen here, rw (here, has) (forgets sid id v.sessions))
        | inr away ↦ inr (λ c. absurd (cc (shown c, away)), (rw away), (rw away))
      ]
