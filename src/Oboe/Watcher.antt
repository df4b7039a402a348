-- ===== src/Oboe/Watcher.antt =====
-- internal/oboe/file_watcher.go, internal/oboe/settings_lambda.go and internal/oboe/null_settings_updater.go: settings from
-- a file in a lambda environment. The file's content and the JSON decoder are arguments, and a panic is `none`.
pub mod Wait
pub mod Watched
use apm_go.Prelude.{
  ℕ, Bool, true, false, List, [], ◌∷◌, Option, none, some, Bytes, codes, is_empty, if◌then◌else◌,
  ◌>>=◌,
}
use apm_go.Prelude.Int.{ℤ, pos, ltb_ℤ}
use apm_go.Float.{Float64}
use apm_go.Oboe.Life.{update_setting}
use apm_go.Oboe.Remote.{RemoteSettings, lambda_update_args}
use apm_go.Oboe.Request.{Oboe}
use apm_go.Oboe.Settings.{LocalConfig}

-- What reading the file yields.
pub data FileRead : Type 0 where
  missing unreadable : FileRead
  content : Bytes → FileRead

-- newSettingLambdaFromFile; a nil pointer in the file's array is `none`.
pub data LambdaSetting (F : Type 0) : Type 0 where
  not_exist bad_file : LambdaSetting F
  setting : Option (RemoteSettings F) → LambdaSetting F

module _ {F : Type 0} (decode : Bytes → Option (List (Option (RemoteSettings F)))) where
  unfoldable pub new_setting_lambda_from_file : FileRead → LambdaSetting F
  new_setting_lambda_from_file missing = not_exist
  new_setting_lambda_from_file unreadable = bad_file
  new_setting_lambda_from_file (content text) = elim (decode text) [
    | none ↦ bad_file
    | some [] ↦ bad_file
    | some (s ∷ []) ↦ setting s
    | some (s ∷ t ∷ ss) ↦ bad_file
  ]

  module _ {R C : Type 0} ⦃fl : Float64 F⦄ (conf : LocalConfig) where
    unfoldable pub read_setting_from_file : ℕ → FileRead → Oboe F R C → Option (Oboe F R C)
    unfolding new_setting_lambda_from_file lambda_update_args
    read_setting_from_file now file o = elim (new_setting_lambda_from_file file) [
      | not_exist ↦ some o
      | bad_file ↦ some o
      | setting s ↦ do r ← s; args ← lambda_update_args r; some (update_setting conf now args o)
    ]

-- The watcher's goroutine runs until it takes from the channel `exit`.
pub record Watcher (F R C : Type 0) : Type 0 where
  pub watching : Bool
  pub oboe : Oboe F R C

-- A tick of the timer, the exit, and the one read of Start itself, each with the time and what the file yields.
pub data WatchEvent : Type 0 where
  ticked started : ℕ → FileRead → WatchEvent
  exited : WatchEvent

module _ {F R C : Type 0} ⦃fl : Float64 F⦄
    (decode : Bytes → Option (List (Option (RemoteSettings F)))) (conf : LocalConfig) where
  unfoldable pub watch_read : ℕ → FileRead → Watcher F R C → Option (Watcher F R C)
  unfolding read_setting_from_file
  watch_read now file w = do
    o ← read_setting_from_file decode conf now file w.oboe
    some (record w { oboe = o })

  unfoldable pub watch_step : WatchEvent → Watcher F R C → Option (Watcher F R C)
  unfolding watch_read
  watch_step (ticked now file) w =
      let read = watch_read now file w in if w.watching then read else some w
  watch_step (started now file) w = watch_read now file w
  watch_step exited w = some (record w { watching = false })

  unfoldable pub watch_run : List WatchEvent → Watcher F R C → Option (Watcher F R C)
  unfolding watch_step
  watch_run [] w = some w
  watch_run (e ∷ es) w = watch_step e w >>= watch_run es

-- waitForSettingsFile: the time it waits for, of the variable and time.ParseDuration; `none` if it does not wait.
unfoldable pub wait_timeout : (Bytes → Option ℤ) → Bytes → Option ℤ
wait_timeout parse_duration timeout_str =
    if is_empty timeout_str then some (pos 1_000_000_000) else elim (parse_duration timeout_str) [
      | none ↦ some (pos 1_000_000_000)
      | some override ↦ if ltb_ℤ override (pos 1) then none else some override
    ]

-- What its loop selects: a tick, with what os.Stat says then, or the end of the context.
pub data WaitEvent : Type 0 where
  stat_found stat_missing stat_failed deadline : WaitEvent

pub data WaitResult : Type 0 where
  waiting found failed timed_out : WaitResult

unfoldable pub wait_loop : List WaitEvent → WaitResult
wait_loop [] = waiting
wait_loop (stat_found ∷ es) = found
wait_loop (stat_missing ∷ es) = wait_loop es
wait_loop (stat_failed ∷ es) = failed
wait_loop (deadline ∷ es) = timed_out
