-- ===== src/Oidc/Web/Flow.antt =====
-- When the callback logs somebody in.
use common_rust.Prelude.{
  Bool, Option, none, some, List, ◌==◌, list_eq, nat_eq, ◌≡◌, refl, arith, eq_refl, eq_iff, ◌⊎◌,
  inl, inr, Bool-cases, ap, ◌∙◌,
}
use common_rust.Prelude.Dict.{Dict}
use common_rust.Prelude.Result.{Result, ok, err}
use common_rust.Prelude.Text.{Text, codes}
use common_rust.Oidc.Store
use common_rust.Oidc.Store.{Session, FlowState, Expiring}
use common_rust.Oidc.Idp.{OidcConfig, Idp, Server, TokenBundle, flow_cookie, CookieChange}
use common_rust.Oidc.Web.{
  start_login, failed_login, exchanged, with_code, with_error, with_flow, with_flow_id, callback,
}

module _ {W : Type 0} (idp : Idp W) (config : OidcConfig) where
  start_login_keeps :
      (next : Text) (silent tried : Bool) (cookies : List CookieChange) (v : Server W)
      → (start_login idp config next silent tried cookies v).1.sessions ≡ v.sessions
  unfolding start_login
  start_login_keeps next silent tried cookies v = refl

  failed_login_keeps :
      (error id : Text) (flow : FlowState) (v : Server W)
      → (failed_login idp config error id flow v).1.sessions ≡ v.sessions
  unfolding failed_login
  failed_login_keeps error id flow v = ground arith

  module _ (jar params : Dict Text Text) (v : Server W) where
    -- The login `flow` was under way in this browser, the IdP reported no error and gave back the
    -- flow's state with a code, the code was exchanged, and the flow is forgotten.
    pub record IsLogin (v' : Server W) : Type 0 where
      pub flow_id : Text
      pub flow : FlowState
      pub code : Text
      pub tokens : TokenBundle
      pub has_cookie : jar flow_cookie ≡ some flow_id
      pub is_live : Store.get v.flows flow_id (idp.clock v.world) ≡ some flow
      pub no_error : params (codes "error") ≡ none
      pub same_state : params (codes "state") ≡ some flow.state
      pub has_code : params (codes "code") ≡ some code
      pub is_exchanged : (idp.exchange_code code flow.verifier v.world).0 ≡ ok tokens
      pub consumed : v'.flows.entries flow_id ≡ none

    abbrev pub KeepsOrLogsIn : Server W → Type 0
    KeepsOrLogsIn v' = (v'.sessions ≡ v.sessions) ⊎ IsLogin v'

    module _ (id : Text) (flow : FlowState) (has : jar flow_cookie ≡ some id)
        (is_live : Store.get v.flows id (idp.clock v.world) ≡ some flow)
        (no_error : params (codes "error") ≡ none) where
      exchanged_step :
          (code : Text) (r : Result Text TokenBundle)
          → params (codes "state") ≡ some flow.state
          → params (codes "code") ≡ some code
          → (idp.exchange_code code flow.verifier v.world).0 ≡ r
          → KeepsOrLogsIn
              (exchanged idp config r id flow
                (record v { world = (idp.exchange_code code flow.verifier v.world).1 })).1
      unfolding exchanged Store.remove
      exchanged_step code (err _) s c e = inl refl
      exchanged_step code (ok tokens) s c e = inr (record {
        flow_id = id;
        flow = flow;
        code = code;
        tokens = tokens;
        has_cookie = has;
        is_live = is_live;
        no_error = no_error;
        same_state = s;
        has_code = c;
        is_exchanged = e;
        consumed = rw (eq_refl id);
      })

      code_step :
          (code state : Option Text)
          → params (codes "code") ≡ code
          → params (codes "state") ≡ state
          → KeepsOrLogsIn (with_code idp config code state id flow v).1
      code_step none state c s = inl refl
      code_step (some code) none c s = inl refl
      code_step (some code) (some state) c s = elim (Bool-cases (state == flow.state)) [
        | inl same ↦
            rw same (exchanged_step code _ (s ∙ ap some ((eq_iff state flow.state).0 same)) c refl)
        | inr different ↦ rw different (inl refl)
      ]

    error_step :
        (error : Option Text) (id : Text) (flow : FlowState)
        → jar flow_cookie ≡ some id
        → Store.get v.flows id (idp.clock v.world) ≡ some flow
        → params (codes "error") ≡ error
        → KeepsOrLogsIn (with_error idp config error params id flow v).1
    error_step (some error) id flow has is_live e = inl (failed_login_keeps error id flow v)
    error_step none id flow has is_live e = code_step id flow has is_live e _ _ refl refl

    flow_step :
        (flow : Option FlowState) (id : Text)
        → jar flow_cookie ≡ some id
        → Store.get v.flows id (idp.clock v.world) ≡ flow
        → KeepsOrLogsIn (with_flow idp config flow params id v).1
    flow_step none id has is_live = inl (start_login_keeps _ _ _ _ v)
    flow_step (some flow) id has is_live = error_step _ id flow has is_live refl

    id_step :
        (id : Option Text)
        → jar flow_cookie ≡ id
        → KeepsOrLogsIn (with_flow_id idp config id params v).1
    id_step none has = inl (start_login_keeps _ _ _ _ v)
    id_step (some id) has = flow_step _ id has refl

    -- A callback leaves the sessions as they are, or it is a login in the sense above.
    pub callback-IsLogin : KeepsOrLogsIn (callback idp config jar params v).1
    unfolding callback
    callback-IsLogin = id_step _ refl

    -- A flow that the server has forgotten logs nobody in: such a callback leaves the sessions.
    pub callback_replay :
        (id : Text)
        → jar flow_cookie ≡ some id
        → v.flows.entries id ≡ none
        → (callback idp config jar params v).1.sessions ≡ v.sessions
    unfolding callback Store.get
    callback_replay id has gone = rw has (rw gone (start_login_keeps _ _ _ _ v))
