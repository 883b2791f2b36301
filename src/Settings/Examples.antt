-- ===== src/Settings/Examples.antt =====
-- Examples of the settings.
use hofvarpnir.Base.{refl, ◌<◌, none, some, pos, negsuc, arith}
use hofvarpnir.Samples.{calendar, settings}
use hofvarpnir.Settings.{
  EffectiveSettings, EnvOverrides, RuntimeSettingsPatch, next_pause_deadline, indefinite_pause,
}
use hofvarpnir.Settings.Pauses.{SameFlags, Lapses, next_pause_deadline-exact}

abbrev overrides : EnvOverrides
overrides = record {
  max_concurrent_downloads = some 2;
  max_indexers_per_tick = none;
  rate_limit_delay_secs = none;
  check_interval_secs = some 30;
  cleanup_interval_secs = none;
  drain_timeout_secs = none;
}

-- A pause of the downloads, and a cap that is taken back.
abbrev patch : RuntimeSettingsPatch
patch = record {
  indexing_paused_until = none;
  downloads_paused_until = some (some 900);
  max_concurrent_downloads = some none;
  max_indexers_per_tick = some (some (pos 9));
  rate_limit_delay_secs = some (some (negsuc 0));
  check_interval_secs = none;
  cleanup_interval_secs = none;
  drain_timeout_secs = none;
}

abbrev paused : EffectiveSettings
paused = record settings { indexing_paused_until = some 500; downloads_paused_until = some 900 }

next_pause_deadline-exact_example :
    (100 < 500) × SameFlags calendar paused 100 499 × Lapses calendar paused 100 500
unfolding next_pause_deadline indefinite_pause
next_pause_deadline-exact_example =
    next_pause_deadline-exact calendar paused 100 500 499 refl (omega arith) (omega arith)
      (omega arith)
