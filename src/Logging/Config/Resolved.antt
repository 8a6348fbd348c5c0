-- ===== src/Logging/Config/Resolved.antt =====
-- What a logging configuration that is resolved holds.
use common_rust.Prelude.{
  Option, none, some, [], ◌∷◌, list_eq, nat_eq, ◌≡◌, ◌↔◌, ◌⊎◌, inl, inr, refl, subst, eq_iff, arith,
}
use common_rust.Prelude.Result.{Result, ok, bind-eq-ok, Result-cases}
use common_rust.Prelude.Text.{Text, codes}
use common_rust.Config.Class.{Deployment, prod, dev, parse_deployment}
use common_rust.Logging.Filter.{LevelFilter, Designators}
use common_rust.Logging.Filter
use common_rust.Logging.Config.{
  Format, human, json, LogConfig, parse_format, filter_of, env_filter, assemble, resolve,
}

-- Human lines are asked for by their name; lines are JSON if that is named or nothing is.
abbrev pub SaysFormat : Option Text → Format → Type 0
SaysFormat log_format human = log_format ≡ some (codes "human")
SaysFormat log_format json = (log_format ≡ none) ⊎ (log_format ≡ some (codes "json"))

-- The class is always named.
abbrev pub SaysDeployment : Option Text → Deployment → Type 0
SaysDeployment deployment_type prod = deployment_type ≡ some (codes "prod")
SaysDeployment deployment_type dev = deployment_type ≡ some (codes "dev")

abbrev pub IsDefault : Deployment → Text → Type 0
IsDefault prod filter = filter ≡ codes "info"
IsDefault dev filter = filter ≡ codes "debug"

-- The directives are the text of the variable, unless that is unset or empty.
abbrev pub SaysFilter : Option Text → Deployment → Text → Type 0
SaysFilter none deployment filter = IsDefault deployment filter
SaysFilter (some []) deployment filter = IsDefault deployment filter
SaysFilter (some (c ∷ s)) deployment filter = filter ≡ c ∷ s

filter_of-SaysFilter :
    (rust_log : Option Text) (d : Deployment) (filter : Text)
    → (filter ≡ filter_of rust_log d) ↔ SaysFilter rust_log d filter
filter_of-SaysFilter none prod filter = ground arith
filter_of-SaysFilter none dev filter = ground arith
filter_of-SaysFilter (some []) prod filter = ground arith
filter_of-SaysFilter (some []) dev filter = ground arith
filter_of-SaysFilter (some (c ∷ s)) d filter = ground arith

parse_format-SaysFormat :
    (log_format : Option Text) (f : Format)
    → (parse_format log_format ≡ ok f) ↔ SaysFormat log_format f
unfolding parse_format
parse_format-SaysFormat none human = ground arith
parse_format-SaysFormat none json = ground arith
parse_format-SaysFormat (some t) human =
    ground (arith, eq_iff t (codes "human"), eq_iff t (codes "json"))
parse_format-SaysFormat (some t) json =
    ground (arith, eq_iff t (codes "human"), eq_iff t (codes "json"))

parse_deployment-SaysDeployment :
    (t : Option Text) (d : Deployment) → (parse_deployment t ≡ ok d) ↔ SaysDeployment t d
unfolding parse_deployment
parse_deployment-SaysDeployment none prod = ground arith
parse_deployment-SaysDeployment none dev = ground arith
parse_deployment-SaysDeployment (some t) prod =
    ground (arith, eq_iff t (codes "prod"), eq_iff t (codes "dev"))
parse_deployment-SaysDeployment (some t) dev =
    ground (arith, eq_iff t (codes "prod"), eq_iff t (codes "dev"))

module _ {F : Type 0} (level_of : Text → Option LevelFilter) (try_new : Text → Result Text F) where
  -- The parts of a configuration are what the variables say, and its directives are ones that the
  -- tracing library reads.
  pub record IsResolved (log_format deployment_type rust_log log_designators : Option Text)
      (c : LogConfig) : Type 0 where
    pub format : SaysFormat log_format c.format
    pub deployment : SaysDeployment deployment_type c.deployment
    pub filter : SaysFilter rust_log c.deployment c.filter
    pub designators : Filter.parse level_of log_designators ≡ ok c.designators
    pub directives : (f : F) × (try_new c.filter ≡ ok f)

  directives-env_filter :
      (c : LogConfig)
      → ((f : F) × (try_new c.filter ≡ ok f)) ↔ ((f : F) × (env_filter level_of try_new c ≡ ok f))
  unfolding env_filter
  directives-env_filter c = elim (Result-cases (try_new c.filter)) [
    | inl (g, e) ↦ (λ _. (g, rw e refl), λ _. (g, e))
    | inr (x, e) ↦ (λ (f, h). absurd (cc (e, h)), λ (f, h). absurd (cc (rw e at h)))
  ]

  resolve_to :
      (log_format deployment_type rust_log log_designators : Option Text) (c : LogConfig)
      → resolve level_of try_new log_format deployment_type rust_log log_designators ≡ ok c
      → IsResolved log_format deployment_type rust_log log_designators c
  unfolding resolve assemble
  resolve_to log_format deployment_type rust_log log_designators c h =
      let (f, f_read, h₁) = bind-eq-ok (parse_format log_format) _ h in
      let (d, d_read, h₂) = bind-eq-ok (parse_deployment deployment_type) _ h₁ in
      let (ds, ds_read, h₃) = bind-eq-ok (Filter.parse level_of log_designators) _ h₂ in
      let made : LogConfig = record {
        format = f;
        deployment = d;
        filter = filter_of rust_log d;
        designators = ds;
      } in
      let (directives, read, done) = bind-eq-ok (env_filter level_of try_new made) _ h₃ in
      let is : made ≡ c = cc in
      subst (IsResolved log_format deployment_type rust_log log_designators) is (record {
        format = (parse_format-SaysFormat log_format f).0 f_read;
        deployment = (parse_deployment-SaysDeployment deployment_type d).0 d_read;
        filter = (filter_of-SaysFilter rust_log d (filter_of rust_log d)).0 refl;
        designators = ds_read;
        directives = (directives-env_filter made).1 (directives, read);
      })

  resolve_from :
      (log_format deployment_type rust_log log_designators : Option Text) (c : LogConfig)
      → IsResolved log_format deployment_type rust_log log_designators c
      → resolve level_of try_new log_format deployment_type rust_log log_designators ≡ ok c
  unfolding resolve assemble
  resolve_from log_format deployment_type rust_log log_designators c r =
      let format = (parse_format-SaysFormat log_format c.format).1 r.format in
      let deployment =
        (parse_deployment-SaysDeployment deployment_type c.deployment).1 r.deployment in
      let filter = (filter_of-SaysFilter rust_log c.deployment c.filter).1 r.filter in
      let (f, read) = (directives-env_filter c).0 r.directives in
      rw (format, deployment, r.designators, ← filter) (rw read refl)

  -- A logging configuration is resolved exactly when it is what the four variables say and the
  -- tracing library reads its directives: `human` lines if they are named, and JSON ones if they
  -- are or nothing is; the class, which is always named; the directives of RUST_LOG or, if that is
  -- unset or empty, `info` for production and `debug` for development; and the filter that the
  -- designators are read as.
  pub resolve-IsResolved :
      (log_format deployment_type rust_log log_designators : Option Text) (c : LogConfig)
      → (resolve level_of try_new log_format deployment_type rust_log log_designators ≡ ok c)
        ↔ IsResolved log_format deployment_type rust_log log_designators c
  resolve-IsResolved log_format deployment_type rust_log log_designators c = (
    resolve_to log_format deployment_type rust_log log_designators c,
    resolve_from log_format deployment_type rust_log log_designators c,
  )
