-- ===== src/Settings/Layers.antt =====
-- What a patch of the settings row does to the settings in force (runtime_config.rs,
-- db/runtime_settings.rs).
use hofvarpnir.Base.{ℕ, Option, none, some, ℤ, pos, negsuc}
use hofvarpnir.Clock.{from_secs}
use hofvarpnir.Settings.{
  Resolved, database, EffectiveSettings, RuntimeSettingsRow, RuntimeSettingsPatch,
}

-- The row of a fresh database: every column is NULL.
abbrev pub empty_row : RuntimeSettingsRow
empty_row = record {
  indexing_paused_until = none;
  downloads_paused_until = none;
  max_concurrent_downloads = none;
  max_indexers_per_tick = none;
  rate_limit_delay_secs = none;
  check_interval_secs = none;
  cleanup_interval_secs = none;
  drain_timeout_secs = none;
}

-- One setting after a patch of its column, from the settings before and with no row at all.
abbrev pub after : (ℕ → ℕ) → Option (Option ℤ) → (unset before : Resolved) → Resolved
after unit none unset before = before
after unit (some none) unset before = unset
after unit (some (some (negsuc n))) unset before = unset
after unit (some (some (pos n))) unset before = record { value = unit n; provenance = database }

abbrev paused_after : Option (Option ℕ) → Option ℕ → Option ℕ
paused_after none before = before
paused_after (some until) before = until

abbrev pub settings_after :
    RuntimeSettingsPatch → (unset before : EffectiveSettings) → EffectiveSettings
settings_after patch unset before = record {
  indexing_paused_until = paused_after patch.indexing_paused_until before.indexing_paused_until;
  downloads_paused_until = paused_after patch.downloads_paused_until before.downloads_paused_until;
  max_concurrent_downloads =
      after (λ n. n) patch.max_concurrent_downloads unset.max_concurrent_downloads
        before.max_concurrent_downloads;
  max_indexers_per_tick =
      after (λ n. n) patch.max_indexers_per_tick unset.max_indexers_per_tick
        before.max_indexers_per_tick;
  rate_limit_delay =
      after from_secs patch.rate_limit_delay_secs unset.rate_limit_delay before.rate_limit_delay;
  check_interval =
      after from_secs patch.check_interval_secs unset.check_interval before.check_interval;
  cleanup_interval =
      after from_secs patch.cleanup_interval_secs unset.cleanup_interval before.cleanup_interval;
  drain_timeout = after from_secs patch.drain_timeout_secs unset.drain_timeout before.drain_timeout;
}
