-- ===== src/Store/Settings.antt =====
-- internal/store/settings_store.go: settings by key. `io` says whether the database executes the
-- statement. Durations are seconds.
use klever_node_hub.Prelude.{
  ℕ, ◌≤◌, ◌≡◌, refl, String, Bool, true, false, List, [], ◌∷◌, Option, none, some, Map, lookup,
  insert, delete, ◌==◌, string_eq, if◌then◌else◌, ltb, leb, codes, ℤ, pos, negsuc, atoi, arith,
  lookup-insert, eq_iff,
}
pub mod Tests

abbrev pub Settings : Type 0
Settings = Map String String

-- Get: an empty text for a key that is not there, `none` for an error.
unfoldable pub get : Bool → String → Settings → Option String
get io key t = if io then some (elim (lookup key t) [ none ↦ "" | some value ↦ value ]) else none

unfoldable pub set : Bool → String → String → Settings → Settings × Bool
set io key value t = if io then (insert key value t, true) else (t, false)

unfoldable pub get_all : Bool → Settings → Option Settings
get_all io t = if io then some t else none

-- Delete
unfoldable pub remove : Bool → String → Settings → Settings × Bool
remove io key t = if io then (delete key t, true) else (t, false)

abbrev pub heartbeat_timeout_default : ℕ
heartbeat_timeout_default = 120

-- The bounds that the settings page has too.
abbrev pub clamp_timeout : Option ℤ → ℕ
clamp_timeout none = heartbeat_timeout_default
clamp_timeout (some (negsuc n)) = heartbeat_timeout_default
clamp_timeout (some (pos sec)) =
    if ltb 0 sec
    then if ltb sec 30 then 30 else if ltb 600 sec then 600 else sec
    else heartbeat_timeout_default

-- HeartbeatTimeout; the store is `none` where the pointer is nil.
unfoldable pub heartbeat_timeout : Bool → Option Settings → ℕ
unfolding get
heartbeat_timeout io none = heartbeat_timeout_default
heartbeat_timeout io (some t) = elim (get io "heartbeat_timeout_sec" t) [
  | none ↦ heartbeat_timeout_default
  | some raw ↦ if raw == "" then heartbeat_timeout_default else clamp_timeout (atoi (codes raw))
]

clamp_timeout_bounds : (o : Option ℤ) → (30 ≤ clamp_timeout o) × (clamp_timeout o ≤ 600)
clamp_timeout_bounds none = omega arith
clamp_timeout_bounds (some (negsuc n)) = omega arith
clamp_timeout_bounds (some (pos sec)) = ground arith

-- Whatever text the setting holds, and also if the database fails, the timeout lies between 30 seconds
-- and 10 minutes.
pub heartbeat_timeout_bounds :
    (io : Bool) (store : Option Settings)
    → (30 ≤ heartbeat_timeout io store) × (heartbeat_timeout io store ≤ 600)
unfolding heartbeat_timeout
heartbeat_timeout_bounds io none = omega arith
heartbeat_timeout_bounds io (some t) = bounds (get io "heartbeat_timeout_sec" t)
  where
    bounds :
        (o : Option String)
        → let v : ℕ = elim o [
          | none ↦ heartbeat_timeout_default
          | some raw ↦
              if raw == "" then heartbeat_timeout_default else clamp_timeout (atoi (codes raw))
        ] in
          (30 ≤ v) × (v ≤ 600)
    bounds none = omega arith
    bounds (some raw) =
        elim (raw == "")
          as (λ b.
            let v : ℕ = if b then heartbeat_timeout_default else clamp_timeout (atoi (codes raw)) in
            (30 ≤ v) × (v ≤ 600)) [
              | true ↦ omega arith
              | false ↦ clamp_timeout_bounds (atoi (codes raw))
            ]
