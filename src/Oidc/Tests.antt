-- ===== src/Oidc/Tests.antt =====
-- A concrete IdP, and the theorems on identity applied to it. The world is a number that counts
-- what the IdP has been asked for and serves as the clock.
use common_rust.Prelude.{
  ℕ, zero, suc, ◌+◌, ◌≤◌, true, false, Option, none, some, List, [], ◌∷◌, ◌≡◌, ◌⊎◌, ◌↔◌, refl,
  arith, list_eq, list_beq, nat_eq, ◌==◌, if◌then◌else◌, any,
}
use common_rust.Prelude.Dict.{Dict, empty, insert, filter_value}
use common_rust.Prelude.Result.{Result, ok, err}
use common_rust.Prelude.Text.{Text, codes, decimal}
use common_rust.Oidc.Principal.{Principal, Upstream, rejected}
use common_rust.Oidc.Predicate.{Denial, Rule, has_group, or_rule, and_rule, not_rule, check}
use common_rust.Oidc.Predicate.Meaning.{Satisfies, check_iff}
use common_rust.Oidc.Store
use common_rust.Oidc.Store.{Session, FlowState, Expiring, live}
use common_rust.Oidc.Store.Refinement.{Event, put_at, remove_at, run, written, get-run}
use common_rust.Oidc.Retry.{max_times, Attempt, answered, hung, Permission, again, within}
use common_rust.Oidc.Retry.Recovery.{Recovers, within-Recovers}
use common_rust.Oidc.Retry.Budget.{IsHonest, within-IsHonest, within_at_most_six}
use common_rust.Oidc.Bearer.{BearerValidator}
use common_rust.Oidc.Idp.{Idp, OidcConfig, Server, Request, flow_cookie}
use common_rust.Oidc.Session.{resolve_session}
use common_rust.Oidc.Web.{logout, exchanged, callback, safe_next}
use common_rust.Oidc.Web.SafeNext.{IsLocal, safe_next-IsLocal}
use common_rust.Oidc.Session.Outcome.{Outcome, resolve_session-Outcome}
use common_rust.Oidc.Web.Logout.{CameFromHere, logout_effect}
use common_rust.Oidc.Web.Flow.{KeepsOrLogsIn, callback-IsLogin}
use common_rust.Oidc.Auth.{
  AuthVia, AuthContext, disabled, AuthProviders, Incoming, set_auth_context, extract_gated,
}
use common_rust.Oidc.Auth.Gated.{Vouched, Grounded, gated_safety}

abbrev ada : Principal
ada = record { username = codes "ada"; effective_groups = codes "admins" ∷ codes "staff" ∷ [] }

-- A rule over a state that holds one configured group.
abbrev sample_rule : Rule (Option Text)
sample_rule = and_rule (has_group (λ g. g)) (not_rule (has_group (λ _. some (codes "banned"))))

check_iff_example :
    (check sample_rule ada (some (codes "admins")) ≡ ok tt)
    ↔ Satisfies sample_rule ada (some (codes "admins"))
check_iff_example = check_iff sample_rule ada (some (codes "admins"))

abbrev either : Rule (Option Text)
either = or_rule (has_group (λ g. g)) (has_group (λ _. none))

abbrev both_gates : Denial
both_gates = record { gate = codes "ops (effective membership) or -" }

either_denied : check either ada (some (codes "ops")) ≡ err both_gates
unfolding check any list_beq
either_denied = refl

-- Three writes and a removal; the second write comes after the first value has expired.
abbrev events : List (Event ℕ)
events =
    put_at 1 (codes "a") 1
    ∷ put_at 20 (codes "b") 20
    ∷ remove_at 21 (codes "b")
    ∷ put_at 22 (codes "c") 22
    ∷ []

get-run_example :
    Store.get (run (Store.new 10 (λ (t : ℕ). t)) events) (codes "c") 25
    ≡ filter_value (live 10 (λ (t : ℕ). t) 25) (written empty events (codes "c"))
get-run_example =
    get-run 10 (λ t. t) events 0 25 (codes "c")
      (omega arith, (omega arith, (omega arith, (omega arith, omega arith))))

-- An IdP that hangs once and then answers; it knows one token.
abbrev ask : {T : Type 0} → Result Upstream T → ℕ → Attempt T × ℕ
ask r zero = (hung, 1)
ask r (suc n) = (answered r, suc (suc n))

abbrev always : ℕ → Permission × ℕ
always n = (again, n)

abbrev tell : Text → Result Upstream Principal
tell token = if token == codes "good" then ok ada else err (rejected (codes "token rejected"))

within-IsHonest_example : IsHonest always (ask (tell (codes "good"))) (ok ada)
unfolding within list_beq
within-IsHonest_example = within-IsHonest always (ask (tell (codes "good"))) 0

within-Recovers_example :
    (within always (ask (ok ada)) 0 ≡ (ok ada, 2))
    ↔ Recovers always (ask (ok ada)) max_times 0 ada 2
within-Recovers_example = within-Recovers always (ask (ok ada)) 0 2 ada

ask_counts : (w : ℕ) → (ask (tell (codes "good")) w).1 ≡ w + 1
ask_counts zero = refl
ask_counts (suc n) = omega arith

within_at_most_six_example : (within always (ask (tell (codes "good"))) 0).1 ≤ 6
within_at_most_six_example =
    within_at_most_six always (ask (tell (codes "good"))) (λ w. w) ask_counts (λ w. refl) 0

abbrev sample_idp : Idp ℕ
sample_idp = record {
  clock = λ w. w;
  fresh_id = λ w. (decimal w, suc w);
  authorise = always;
  userinfo = λ token. ask (tell token);
  refresh = λ _. ask (ok (record { access_token = codes "good"; refresh_token = none }));
  authorize_url = λ silent w. (
    record {
      url = codes "https://idp/authorize";
      csrf_state = codes "st";
      pkce_verifier = codes "ver";
    },
    w,
  );
  exchange_code =
      λ code verifier w. (ok (record { access_token = codes "good"; refresh_token = none }), w);
  join = λ raw.
      some (record { same_origin = true; path = raw; query = some (codes "x=1"); fragment = none });
}

abbrev sample_config : OidcConfig
sample_config = record {
  cookie_name = codes "sid";
  cookie_secure = true;
  login_path = codes "/oidc/login";
  app_origin = codes "https://app.example";
  end_session_url = none;
}

safe_next-IsLocal_example : IsLocal (safe_next sample_idp sample_config (some (codes "/inbox")))
safe_next-IsLocal_example = safe_next-IsLocal sample_idp sample_config (some (codes "/inbox"))

-- A server with a session whose token the IdP no longer takes but refreshes, and with a login under
-- way, at the hour 100.
abbrev stale : Session
stale = record { access_token = codes "old"; refresh_token = some (codes "rt"); created = 90 }

abbrev under_way : FlowState
under_way = record {
  state = codes "st";
  verifier = codes "ver";
  next = codes "/inbox";
  interactive_tried = false;
  created = 95;
}

abbrev sample_server : Server ℕ
sample_server = record {
  sessions = record Store.memory_store { entries = insert (codes "s1") stale empty };
  flows = record Store.memory_flow_store { entries = insert (codes "f1") under_way empty };
  world = 100;
}

abbrev sample_jar : Dict Text Text
sample_jar = insert (codes "sid") (codes "s1") (insert flow_cookie (codes "f1") empty)

sample_cookie : sample_jar sample_config.cookie_name ≡ some (codes "s1")
unfolding list_beq
sample_cookie = refl

sample_live :
    Store.get sample_server.sessions (codes "s1") (sample_idp.clock sample_server.world)
    ≡ some stale
unfolding Store.get Store.memory_store list_beq
sample_live = refl

resolve_session-Outcome_example :
    Outcome sample_idp sample_config
      (codes "s1")
      stale
      (resolve_session sample_idp sample_config sample_jar sample_server)
resolve_session-Outcome_example =
    resolve_session-Outcome sample_idp sample_config sample_jar sample_server (codes "s1") stale
      sample_cookie sample_live

abbrev from_here : Request
from_here = record {
  is_get = false;
  accept = none;
  sec_fetch_site = none;
  origin = some (codes "https://app.example");
  target = none;
}

logout_effect_example :
    (CameFromHere sample_idp sample_config from_here
      × ((logout sample_idp sample_config sample_jar from_here sample_server).1.sessions.entries
            (codes "s2")
          ≡ (if codes "s1" == codes "s2"
              then none
              else sample_server.sessions.entries (codes "s2"))))
    ⊎ ((¬ CameFromHere sample_idp sample_config from_here)
        × ((logout sample_idp sample_config sample_jar from_here sample_server).1 ≡ sample_server)
        × ((logout sample_idp sample_config sample_jar from_here sample_server).0.status ≡ 403))
logout_effect_example =
    logout_effect sample_idp sample_config sample_jar from_here sample_server (codes "s1")
      (codes "s2") sample_cookie

abbrev sample_params : Dict Text Text
sample_params = insert (codes "code") (codes "c1") (insert (codes "state") (codes "st") empty)

callback-IsLogin_example :
    KeepsOrLogsIn sample_idp sample_config sample_jar sample_params sample_server
      (callback sample_idp sample_config sample_jar sample_params sample_server).1
callback-IsLogin_example =
    callback-IsLogin sample_idp sample_config sample_jar sample_params sample_server

-- The same callback once more, on the server that the first has left.
abbrev after_login : Server ℕ
after_login = (callback sample_idp sample_config sample_jar sample_params sample_server).1

flow_is_gone : after_login.flows.entries (codes "f1") ≡ none
unfolding callback exchanged Store.get Store.remove Store.memory_flow_store list_beq
flow_is_gone = refl

flow_is_kept : sample_jar flow_cookie ≡ some (codes "f1")
unfolding list_beq
flow_is_kept = refl

abbrev sample_validator : BearerValidator ℕ
sample_validator = record {
  send = λ token w. (
    ok (record {
      status = 200;
      json = ok (record {
        sub = codes "1";
        preferred_username = some (codes "ada");
        effective_groups = ada.effective_groups;
      });
    }),
    suc w,
  );
  status_text = decimal;
}

abbrev sample_providers : AuthProviders ℕ
sample_providers = record {
  oidc = some (sample_idp, sample_config);
  bearer = some sample_validator;
  dev_stub = none;
  unauthorized = none;
  denied = none;
}

abbrev with_bearer : Incoming
with_bearer = record {
  request = from_here;
  authorization = some (codes "Bearer good");
  cookies = sample_jar;
}

abbrev sample_context : AuthContext × Server ℕ
sample_context = set_auth_context sample_providers with_bearer sample_server

sample_passes :
    (extract_gated
      (λ t. t)
      sample_rule
      (some (codes "admins"))
      (record { context = some sample_context.0; providers = some sample_providers })
      from_here
      sample_context.1).0
    ≡ ok ada
unfolding extract_gated set_auth_context check any list_beq
sample_passes = refl

gated_safety_example :
    ((sample_context.0 ≡ disabled) × Grounded sample_providers with_bearer sample_server disabled)
    ⊎ ((via : AuthVia) × Vouched sample_providers with_bearer sample_server ada via
        × Satisfies sample_rule ada (some (codes "admins")))
gated_safety_example =
    gated_safety sample_providers with_bearer sample_server (λ t. t) sample_rule
      (some (codes "admins")) ada sample_passes
