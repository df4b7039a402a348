-- ===== src/Oboe/Watcher/Watched.antt =====
-- The watcher as a history of updates of the Oboe.
use apm_go.Prelude.{Bool, false, if◌then◌else◌, ℕ, List, [], ◌∷◌, Option, none, some, Bytes, ◌++◌}
use apm_go.Oboe.Life.Calls.{Call, updates}
use apm_go.Oboe.Remote.{RemoteSettings, lambda_update_args}
use apm_go.Oboe.Request.{Oboe}
use apm_go.Oboe.Settings.{Settings}
use apm_go.Oboe.Watcher.{
  FileRead, missing, unreadable, content, Watcher, WatchEvent, ticked, started, exited,
}

module _ {F : Type 0} (decode : Bytes → Option (List (Option (RemoteSettings F)))) where
  -- The update that a file asks for: one, if it has exactly one setting with its arguments, and else none.
  abbrev pub file_updates : ℕ → FileRead → List (Call F)
  file_updates now missing = []
  file_updates now unreadable = []
  file_updates now (content text) = elim (decode text) [
    | some (some r ∷ []) ↦ elim (lambda_update_args r) [
      | some arg ↦ updates now arg ∷ []
      | none ↦ []
    ]
    | _ ↦ []
  ]

  -- The updates of a history of the watcher: of the files at the ticks before the exit, and at the starts.
  abbrev pub watched_updates : Bool → List WatchEvent → List (Call F)
  watched_updates on [] = []
  watched_updates on (started now file ∷ es) = file_updates now file ++ watched_updates on es
  watched_updates on (exited ∷ es) = watched_updates false es
  watched_updates on (ticked now file ∷ es) =
      let rest = watched_updates on es in if on then file_updates now file ++ rest else rest
