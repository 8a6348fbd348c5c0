-- ===== src/Oidc/Store/Refinement.antt =====
-- The store against a map that forgets nothing by itself.
use common_rust.Prelude.{
  ℕ, ◌≤◌, true, Option, none, some, List, [], ◌∷◌, ◌≡◌, refl, arith, list_eq, nat_eq,
}
use common_rust.Prelude.Dict
use common_rust.Prelude.Dict.{Dict, empty, filter_value}
use common_rust.Prelude.Text.{Text}
use common_rust.Oidc.Store.{Expiring, live, get, put, remove, new}

pub data Event (T : Type 0) : Type 0 where
  put_at : ℕ → Text → T → Event T
  remove_at : ℕ → Text → Event T

abbrev pub time : {T : Type 0} → Event T → ℕ
time (put_at t _ _) = t
time (remove_at t _) = t

module _ {T : Type 0} where
  abbrev pub run_event : Expiring T → Event T → Expiring T
  run_event s (put_at t id value) = put s id value t
  run_event s (remove_at t id) = remove s id

  abbrev pub run : Expiring T → List (Event T) → Expiring T
  run s [] = s
  run s (e ∷ es) = run (run_event s e) es

  -- The specification: the last write of an id, unless it was removed since.
  abbrev pub written_event : Dict Text T → Event T → Dict Text T
  written_event m (put_at t id value) = Dict.insert id value m
  written_event m (remove_at t id) = Dict.remove id m

  abbrev pub written : Dict Text T → List (Event T) → Dict Text T
  written m [] = m
  written m (e ∷ es) = written (written_event m e) es

  -- The clock does not go back: from `t`, through the events, up to `now`.
  abbrev pub Runs : ℕ → List (Event T) → ℕ → Type 0
  Runs t [] now = t ≤ now
  Runs t (e ∷ es) now = (t ≤ time e) × Runs (time e) es now

  module _ (max_age : ℕ) (created : T → ℕ) where
    live_antitone :
        (t now : ℕ) (v : T)
        → t ≤ now
        → live max_age created now v ≡ true
        → live max_age created t v ≡ true
    unfolding live
    live_antitone t now v h l = ground arith

    filter_twice :
        (t now : ℕ) (o : Option T)
        → t ≤ now
        → filter_value (live max_age created now) (filter_value (live max_age created t) o)
          ≡ filter_value (live max_age created now) o
    filter_twice t now none h = refl
    filter_twice t now (some v) h = ground (arith, live_antitone t now v h)

    -- From time `t` on the two show the same live entries.
    abbrev Shows : Dict Text T → Dict Text T → ℕ → Type 0
    Shows m w t =
        (now : ℕ) (id : Text)
        → t ≤ now
        → filter_value (live max_age created now) (m id)
          ≡ filter_value (live max_age created now) (w id)

    abbrev store : Dict Text T → Expiring T
    store m = record { entries = m; max_age = max_age; created = created }

    step-Shows :
        (m w : Dict Text T) (e : Event T) (t : ℕ)
        → Shows m w t
        → t ≤ time e
        → Shows (run_event (store m) e).entries (written_event w e) (time e)
    unfolding put remove
    step-Shows m w (put_at u k value) t h le now id le' =
        let seen = h now id (omega arith) in ground (arith, filter_twice u now (m id) le', seen)
    step-Shows m w (remove_at u k) t h le now id le' =
        let seen = h now id (omega arith) in ground (arith, seen)

    run-Shows :
        (es : List (Event T)) (m w : Dict Text T) (t now : ℕ) (id : Text)
        → Shows m w t
        → Runs t es now
        → get (run (store m) es) id now ≡ filter_value (live max_age created now) (written w es id)
    unfolding get put remove
    run-Shows [] m w t now id h r = h now id r
    run-Shows (put_at u k value ∷ es) m w t now id h (le, r) =
        run-Shows es _ (Dict.insert k value w) u now id (step-Shows m w (put_at u k value) t h le) r
    run-Shows (remove_at u k ∷ es) m w t now id h (le, r) =
        run-Shows es _ (Dict.remove k w) u now id (step-Shows m w (remove_at u k) t h le) r

    -- However writes and removals are ordered, if the clock does not go back, a read gives the
    -- last value written under the id and not removed since, when that is still live, and nothing
    -- otherwise; the sweeps that writes make of other entries change no answer.
    pub get-run :
        (es : List (Event T)) (start now : ℕ) (id : Text)
        → Runs start es now
        → get (run (new max_age created) es) id now
          ≡ filter_value (live max_age created now) (written empty es id)
    unfolding new
    get-run es start now id r = run-Shows es empty empty start now id (λ _ _ _. refl) r
