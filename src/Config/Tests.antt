-- ===== src/Config/Tests.antt =====
-- The configuration at concrete environments.
use k8s_vectordb_sync.Base.{arith, ◌≤◌, ◌<◌, ◌-◌, ◌*◌, ◌^◌, ◌≡◌, refl, [], ◌∷◌}
use k8s_vectordb_sync.Base.Int.{pos, negsuc}
use k8s_vectordb_sync.Text.{Text, text, to_lower, trim_space, split, contains}
use k8s_vectordb_sync.Config.{
  Env, atoi, env_int_or_default, env_duration_ms_or_default, env_csv_or_default, load,
}
use k8s_vectordb_sync.Config.Variables.{env_csv-join}
use k8s_vectordb_sync.Text.Decimal.{decimal}
use k8s_vectordb_sync.Config.Integers.{env_int-decimal}
use k8s_vectordb_sync.Config.Durations.{atoi_range, env_duration_ms_lem}

-- The same text for every variable.
abbrev always : Text → Env
always value key = value

negative_window : (load (always (text "-5"))).debounce_window ≡ negsuc 4999999
unfolding load env_duration_ms_or_default env_int_or_default atoi
negative_window = refl

csv_normalised :
    env_csv_or_default (always (text " Pods,,SERVICES ")) [] [] ≡ text "pods" ∷ text "services" ∷ []
unfolding env_csv_or_default split trim_space to_lower
csv_normalised = refl

-- A blank, capitals, and an item of which nothing is left.
env_csv-join_example :
    env_csv_or_default (always (text " Pods, ,JOBS")) [] [] ≡ text "pods" ∷ text "jobs" ∷ []
unfolding contains trim_space to_lower
env_csv-join_example =
    env_csv-join (always (text " Pods, ,JOBS")) [] [] (text " Pods") (text " " ∷ text "JOBS" ∷ [])
      refl (refl, (refl, tt)) refl refl

atoi_range_example : (250 < 2 ^ 63) × (0 ≤ 2 ^ 63)
unfolding atoi
atoi_range_example = atoi_range (text "250") (pos 250) refl

env_duration_ms_lem_example :
    (250 ≤ 9223372036854
      → env_duration_ms_or_default (always (text "250")) [] (pos 5000) ≡ pos (1000000 * 250))
    × (9223372036855 ≤ 250
        → 250 ≤ 18446744073709
        → env_duration_ms_or_default (always (text "250")) [] (pos 5000)
          ≡ negsuc (2 ^ 64 - 1000000 * 250 - 1))
unfolding env_int_or_default atoi
env_duration_ms_lem_example = env_duration_ms_lem (always (text "250")) [] (pos 5000) 250 refl

env_int-decimal_example : env_int_or_default (always (text "250")) [] (pos 50) ≡ pos 250
unfolding decimal
env_int-decimal_example = env_int-decimal (always (text "250")) [] (pos 50) 250 refl (omega arith)
