-- ===== src/Settings.antt =====
-- crates/hof-core/src/runtime_config.rs and the row of crates/hof-core/src/db/runtime_settings.rs:
-- settings resolved from the database row, the environment and compiled-in defaults.
pub mod Layers
pub mod Pauses
mod Examples
use hofvarpnir.Base.{
  ℕ, ◌+◌, ◌*◌, ◌-◌, ◌≤◌, ◌<◌, min, ◌≡◌, Bool, true, false, not, ◌&&◌, ◌||◌, Option, none, some, ℤ,
  List, [], ◌∷◌, ltb, leb, ◌==◌, if◌then◌else◌, get_or, is_some_and, unsigned_try_from, filter_if,
  flatten_options, minimum,
}
use hofvarpnir.Clock.{Calendar, from_secs}

abbrev default_max_concurrent : ℕ
default_max_concurrent = 3

abbrev default_max_indexers_per_tick : ℕ
default_max_indexers_per_tick = 5

abbrev default_rate_limit_delay_secs : ℕ
default_rate_limit_delay_secs = 5

abbrev default_check_interval_secs : ℕ
default_check_interval_secs = 60

abbrev default_cleanup_interval_secs : ℕ
default_cleanup_interval_secs = 60 * 60 * 3

abbrev default_drain_timeout_secs : ℕ
default_drain_timeout_secs = 1800

abbrev indefinite_pause_micros : ℕ
indefinite_pause_micros = 253_402_300_799_000_000

unfoldable pub indefinite_pause : Calendar → ℕ
indefinite_pause c = get_or (c.from_timestamp_micros indefinite_pause_micros) c.unix_epoch

pub data Provenance : Type 0 where
  compiled env database : Provenance

pub record Resolved : Type 0 where
  pub value : ℕ
  pub provenance : Provenance

pub record EffectiveSettings : Type 0 where
  pub indexing_paused_until : Option ℕ
  pub downloads_paused_until : Option ℕ
  pub max_concurrent_downloads : Resolved
  pub max_indexers_per_tick : Resolved
  pub rate_limit_delay : Resolved
  pub check_interval : Resolved
  pub cleanup_interval : Resolved
  pub drain_timeout : Resolved

-- The columns that `resolve` reads; `updated_at` and `updated_by` are for display.
pub record RuntimeSettingsRow : Type 0 where
  pub indexing_paused_until : Option ℕ
  pub downloads_paused_until : Option ℕ
  pub max_concurrent_downloads : Option ℤ
  pub max_indexers_per_tick : Option ℤ
  pub rate_limit_delay_secs : Option ℤ
  pub check_interval_secs : Option ℤ
  pub cleanup_interval_secs : Option ℤ
  pub drain_timeout_secs : Option ℤ

pub record EnvOverrides : Type 0 where
  pub max_concurrent_downloads : Option ℕ
  pub max_indexers_per_tick : Option ℕ
  pub rate_limit_delay_secs : Option ℕ
  pub check_interval_secs : Option ℕ
  pub cleanup_interval_secs : Option ℕ
  pub drain_timeout_secs : Option ℕ

-- `db.and_then(|v| u32::try_from(v).ok())`
and_then_unsigned : Option ℤ → Option ℕ
and_then_unsigned none = none
and_then_unsigned (some v) = unsigned_try_from v

unfoldable pub pick_u32 : Option ℤ → Option ℕ → ℕ → Resolved
unfolding and_then_unsigned
pick_u32 db over default = elim (and_then_unsigned db) [
  | some v ↦ record { value = v; provenance = database }
  | none ↦ elim over [
    | none ↦ record { value = default; provenance = compiled }
    | some v ↦ record { value = v; provenance = env }
  ]
]

unfoldable pub pick_secs : Option ℤ → Option ℕ → ℕ → Resolved
unfolding and_then_unsigned
pick_secs db over default = elim (and_then_unsigned db) [
  | some v ↦ record { value = from_secs v; provenance = database }
  | none ↦ elim over [
    | some v ↦ record { value = from_secs v; provenance = env }
    | none ↦ record { value = from_secs default; provenance = compiled }
  ]
]

unfoldable pub resolve : RuntimeSettingsRow → EnvOverrides → EffectiveSettings
resolve row over = record {
  indexing_paused_until = row.indexing_paused_until;
  downloads_paused_until = row.downloads_paused_until;
  max_concurrent_downloads =
      pick_u32 row.max_concurrent_downloads over.max_concurrent_downloads default_max_concurrent;
  max_indexers_per_tick =
      pick_u32 row.max_indexers_per_tick over.max_indexers_per_tick default_max_indexers_per_tick;
  rate_limit_delay =
      pick_secs row.rate_limit_delay_secs over.rate_limit_delay_secs default_rate_limit_delay_secs;
  check_interval =
      pick_secs row.check_interval_secs over.check_interval_secs default_check_interval_secs;
  cleanup_interval =
      pick_secs row.cleanup_interval_secs over.cleanup_interval_secs default_cleanup_interval_secs;
  drain_timeout =
      pick_secs row.drain_timeout_secs over.drain_timeout_secs default_drain_timeout_secs;
}

unfoldable pub indexing_paused : EffectiveSettings → ℕ → Bool
indexing_paused s now = is_some_and s.indexing_paused_until (λ t. ltb now t)

unfoldable pub downloads_paused : EffectiveSettings → ℕ → Bool
downloads_paused s now = is_some_and s.downloads_paused_until (λ t. ltb now t)

unfoldable pub next_pause_deadline : Calendar → EffectiveSettings → ℕ → Option ℕ
next_pause_deadline c s now = minimum (
    filter_if (λ t. ltb now t && not (t == indefinite_pause c))
      (flatten_options (s.indexing_paused_until ∷ s.downloads_paused_until ∷ [])))

-- A difference of instants is clamped at zero, as `to_std` fails on a negative one.
unfoldable pub sleep_duration_until : ℕ → ℕ → ℕ
sleep_duration_until deadline now = deadline - now

-- `patch_runtime_settings`: an absent field leaves its column alone; a present one sets it, also
-- to NULL.
pub record RuntimeSettingsPatch : Type 0 where
  pub indexing_paused_until : Option (Option ℕ)
  pub downloads_paused_until : Option (Option ℕ)
  pub max_concurrent_downloads : Option (Option ℤ)
  pub max_indexers_per_tick : Option (Option ℤ)
  pub rate_limit_delay_secs : Option (Option ℤ)
  pub check_interval_secs : Option (Option ℤ)
  pub cleanup_interval_secs : Option (Option ℤ)
  pub drain_timeout_secs : Option (Option ℤ)

unfoldable pub patch_runtime_settings :
    RuntimeSettingsRow → RuntimeSettingsPatch → RuntimeSettingsRow
patch_runtime_settings row patch = record {
  indexing_paused_until = get_or patch.indexing_paused_until row.indexing_paused_until;
  downloads_paused_until = get_or patch.downloads_paused_until row.downloads_paused_until;
  max_concurrent_downloads = get_or patch.max_concurrent_downloads row.max_concurrent_downloads;
  max_indexers_per_tick = get_or patch.max_indexers_per_tick row.max_indexers_per_tick;
  rate_limit_delay_secs = get_or patch.rate_limit_delay_secs row.rate_limit_delay_secs;
  check_interval_secs = get_or patch.check_interval_secs row.check_interval_secs;
  cleanup_interval_secs = get_or patch.cleanup_interval_secs row.cleanup_interval_secs;
  drain_timeout_secs = get_or patch.drain_timeout_secs row.drain_timeout_secs;
}
