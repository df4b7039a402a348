-- ===== src/Tests/Remote.antt =====
-- The poller of settings.
use apm_go.Prelude.{◌+◌, ◌*◌, false, some, ◌≡◌, refl, subst, arith, Bytes, codes}
use apm_go.Prelude.Int.{ℤ, pos, ◌*ℤ◌}
use apm_go.Float.Exact.{units, exact, exact-FloatLaws}
use apm_go.Oboe.Life.{SettingsUpdateArgs, updated_settings, update_setting}
use apm_go.Oboe.Life.Invariant.{SettingsValid}
use apm_go.Oboe.Life.Calls.{ArgsNonneg}
use apm_go.Oboe.Remote.{
  RemoteSettings, Updater, http_update_args, start_updater, update_tick, retrieved, apply_answer,
  answered, is_invalid_key,
}
use apm_go.Oboe.Remote.Polling.{
  ticks_update, answers, Reachable, begins, continues, Reachable-OneToken, Reachable-SettingsValid,
}
use apm_go.Oboe.Request.{Oboe}
use apm_go.Tests.Fixtures.{Pairs, prefixes, keep_all}
use apm_go.Tests.Requests.{local_config, arguments, arguments-ArgsNonneg, no_oboe}

abbrev pub served_settings : RemoteSettings ℤ
served_settings = record {
  arguments = some (record {
    bucket_capacity = pos (4 * units);
    bucket_rate = pos (2 * units);
    metrics_flush_interval = pos 60;
    trigger_relaxed_bucket_capacity = pos units;
    trigger_relaxed_bucket_rate = pos units;
    trigger_strict_bucket_capacity = pos units;
    trigger_strict_bucket_rate = pos units;
    trigger_token = codes "key";
  });
  flags = codes "SAMPLE_START,TRIGGER_TRACE";
  timestamp = pos 0;
  ttl = pos 60;
  value = pos 2_000_000;
}

abbrev pub Served : RemoteSettings ℤ → Type 0
Served s = http_update_args s ≡ some arguments

Served-settings : Served served_settings
unfolding http_update_args ◌*ℤ◌
Served-settings = refl

Served-ArgsNonneg :
    (s : RemoteSettings ℤ) (arg : SettingsUpdateArgs ℤ)
    → Served s
    → http_update_args s ≡ some arg
    → ArgsNonneg arg
Served-ArgsNonneg s arg h e =
    let same : arguments ≡ arg = cc in subst ArgsNonneg same arguments-ArgsNonneg

abbrev polled_oboe : Oboe ℤ Bytes Pairs
polled_oboe = update_setting local_config (5 * units) arguments no_oboe

abbrev fetching_updater : Updater ℤ Bytes Pairs
fetching_updater = update_tick (start_updater no_oboe)

abbrev pub answered_updater : Updater ℤ Bytes Pairs
answered_updater = answered false 0 polled_oboe fetching_updater

pub answered-Reachable : Reachable Served local_config no_oboe answered_updater
unfolding update_tick start_updater apply_answer is_invalid_key ◌*ℤ◌
answered-Reachable =
    continues fetching_updater answered_updater
      (continues (start_updater no_oboe) fetching_updater begins
        (ticks_update (start_updater no_oboe) refl))
      (answers fetching_updater 0 (5 * units) (retrieved served_settings) polled_oboe refl
        Served-settings refl)

Reachable-OneToken_example :
    (0 + answered_updater.fetching + answered_updater.returning + answered_updater.returning_invalid
      ≡ 1)
    × (1 + answered_updater.checking + answered_updater.checked ≡ 1)
unfolding answered update_tick start_updater
Reachable-OneToken_example =
    Reachable-OneToken Served local_config no_oboe answered_updater answered-Reachable

Reachable-SettingsValid_example :
    SettingsValid (updated_settings local_config (5 * units) arguments)
unfolding answered update_setting
Reachable-SettingsValid_example =
    Reachable-SettingsValid Served local_config exact-FloatLaws (omega arith, omega arith)
      Served-ArgsNonneg no_oboe answered_updater
      (updated_settings local_config (5 * units) arguments) refl answered-Reachable refl
