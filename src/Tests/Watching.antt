-- ===== src/Tests/Watching.antt =====
-- The poller between two moments, and the watcher of the settings file.
use apm_go.Prelude.{true, List, [], ◌∷◌, Option, some, ◌≡◌, Bytes, false}
use apm_go.Prelude.Int.{ℤ}
use apm_go.Float.Exact.{exact}
use apm_go.Oboe.Life.{update_setting, SettingsUpdateArgs}
use apm_go.Oboe.Life.Calls
use apm_go.Oboe.Remote.{RemoteSettings, Updater}
use apm_go.Oboe.Remote.Progress.{Steps, Reachable-unblocked}
use apm_go.Oboe.Watcher.{Watcher, WatchEvent, ticked, started, missing, content, exited}
use apm_go.Tests.Fixtures.{Pairs, prefixes, keep_all}
use apm_go.Tests.Remote.{Served, served_settings, answered_updater, answered-Reachable}
use apm_go.Tests.Requests.{local_config, arguments, no_oboe}

Reachable-unblocked_example :
    (v : Updater ℤ Bytes Pairs) × Steps Served local_config answered_updater v
    × (v.update_ready ≡ true)
    × (v.ttl_ready ≡ true)
    × (v.looping ≡ answered_updater.looping)
Reachable-unblocked_example =
    Reachable-unblocked Served local_config no_oboe answered_updater answered-Reachable

abbrev file_arguments : SettingsUpdateArgs ℤ
file_arguments = record arguments { trigger_token = [] }

abbrev decode_file : Bytes → Option (List (Option (RemoteSettings ℤ)))
decode_file text = some (some served_settings ∷ [])

abbrev watcher : Watcher ℤ Bytes Pairs
watcher = record { watching = true; oboe = no_oboe }

abbrev watch_events : List WatchEvent
watch_events = started 3 missing ∷ ticked 5 (content []) ∷ exited ∷ []

abbrev watched : Watcher ℤ Bytes Pairs
watched = record { watching = false; oboe = update_setting local_config 5 file_arguments no_oboe }
