-- ===== src/Oidc/Store.antt =====
-- crates/oidc/src/store.rs: sessions and logins in flight, in a map whose entries expire. The clock
-- is read once in each call and is an argument here; times count a fixed unit from the epoch.
pub mod Refinement
use common_rust.Prelude.{
  ℕ, ◌-◌, ◌*◌, Bool, true, false, Option, none, some, ltb, if◌then◌else◌, list_eq, nat_eq, list_beq,
}
use common_rust.Prelude.Dict
use common_rust.Prelude.Dict.{Dict, empty, retain, filter_value}
use common_rust.Prelude.Text.{Text}

pub record Session : Type 0 where
  pub access_token : Text
  pub refresh_token : Option Text
  pub created : ℕ

pub record FlowState : Type 0 where
  pub state : Text
  pub verifier : Text
  pub next : Text
  pub interactive_tried : Bool
  pub created : ℕ

pub record Expiring (T : Type 0) : Type 0 where
  pub entries : Dict Text T
  pub max_age : ℕ
  pub created : T → ℕ

module _ {T : Type 0} where
  unfoldable pub new : ℕ → (T → ℕ) → Expiring T
  new max_age created = record { entries = empty; max_age = max_age; created = created }

  -- A value that was created after `now` has no age, and is live.
  unfoldable pub live : ℕ → (T → ℕ) → ℕ → T → Bool
  live max_age created now value =
      if ltb now (created value) then true else ltb (now - created value) max_age

  unfoldable pub get : Expiring T → Text → ℕ → Option T
  unfolding live
  get s id now = filter_value (live s.max_age s.created now) (s.entries id)

  unfoldable pub put : Expiring T → Text → T → ℕ → Expiring T
  unfolding live
  put s id value now = record s {
    entries = Dict.insert id value (retain (live s.max_age s.created now) s.entries);
  }

  unfoldable pub remove : Expiring T → Text → Expiring T
  remove s id = record s { entries = Dict.remove id s.entries }

-- `MemoryFlowStore` and `MemoryStore`, with seconds for the unit.
unfoldable pub memory_flow_store : Expiring FlowState
unfolding new
memory_flow_store = new (10 * 60) (λ f. f.created)

unfoldable pub memory_store : Expiring Session
unfolding new
memory_store = new (12 * 3600) (λ s. s.created)
