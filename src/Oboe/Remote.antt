-- ===== src/Oboe/Remote.antt =====
-- internal/oboe/settings_http.go, internal/oboe/settings_http_updater.go and internal/oboe/settings_lambda.go: the
-- settings that a server or a file gives, and the goroutines that poll the server.
pub mod Polling
pub mod Service
pub mod Escape
pub mod Progress
use apm_go.Prelude.{
  ℕ, ◌+◌, ◌-◌, ◌%◌, ◌^◌, Bool, true, false, Option, none, some, Bytes, [], ltb, ◌≡◌, if◌then◌else◌,
  ◌>>=◌,
}
use apm_go.Prelude.Int.{ℤ, pos, negsuc, ◌*ℤ◌}
use apm_go.Oboe.Life.{SettingsUpdateArgs, update_setting, check_settings_timeout}
use apm_go.Oboe.Request.{Oboe}
use apm_go.Oboe.Settings.{LocalConfig}
use apm_go.Float.{Float64}

abbrev pub nanoseconds : ℕ
nanoseconds = 1_000_000_000

-- An int64 keeps the lower 64 bits of a product.
unfoldable pub to_int64 : ℤ → ℤ
to_int64 (pos n) = let r = n % 2 ^ 64 in if ltb r (2 ^ 63) then pos r else negsuc (2 ^ 64 - 1 - r)
to_int64 (negsuc n) =
    let r = n % 2 ^ 64 in if ltb r (2 ^ 63) then negsuc r else pos (2 ^ 64 - 1 - r)

-- httpSettingArguments, and settingArguments, which has no token.
pub record Arguments (F : Type 0) : Type 0 where
  pub bucket_capacity : F
  pub bucket_rate : F
  pub metrics_flush_interval : ℤ
  pub trigger_relaxed_bucket_capacity : F
  pub trigger_relaxed_bucket_rate : F
  pub trigger_strict_bucket_capacity : F
  pub trigger_strict_bucket_rate : F
  pub trigger_token : Bytes

-- httpSettings and settingLambdaFromFile; `none` is a nil pointer, for JSON without arguments.
pub record RemoteSettings (F : Type 0) : Type 0 where
  pub arguments : Option (Arguments F)
  pub flags : Bytes
  pub timestamp : ℤ
  pub ttl : ℤ
  pub value : ℤ

module _ {F : Type 0} where
  -- ToSettingsUpdateArgs with the token to use; `none` is a panic.
  unfoldable pub update_args :
      RemoteSettings F → (Arguments F → Bytes) → Option (SettingsUpdateArgs F)
  unfolding to_int64
  update_args s token_of = do
    a ← s.arguments
    some (record {
      flags = s.flags;
      value = s.value;
      ttl = to_int64 (pos nanoseconds *ℤ s.ttl);
      trigger_token = token_of a;
      bucket_capacity = a.bucket_capacity;
      bucket_rate = a.bucket_rate;
      metrics_flush_interval = a.metrics_flush_interval;
      trigger_relaxed_bucket_capacity = a.trigger_relaxed_bucket_capacity;
      trigger_relaxed_bucket_rate = a.trigger_relaxed_bucket_rate;
      trigger_strict_bucket_capacity = a.trigger_strict_bucket_capacity;
      trigger_strict_bucket_rate = a.trigger_strict_bucket_rate;
    })

  unfoldable pub http_update_args : RemoteSettings F → Option (SettingsUpdateArgs F)
  unfolding update_args
  http_update_args s = update_args s (λ a. a.trigger_token)

  -- The file's settings have no token.
  unfoldable pub lambda_update_args : RemoteSettings F → Option (SettingsUpdateArgs F)
  unfolding update_args
  lambda_update_args s = update_args s (λ a. [])

-- What getSettings returns.
pub data Answer (F : Type 0) : Type 0 where
  retrieved : RemoteSettings F → Answer F
  invalid_service_key other_error : Answer F

-- The state of settingsUpdater.run: the select loop, the two semaphores (a token in the channel or not), and the
-- goroutines, by what they have still to do.
pub record Updater (F R C : Type 0) : Type 0 where
  pub looping : Bool
  pub done : Bool
  pub update_ready : Bool
  pub ttl_ready : Bool
  -- waiting for the server; about to give the token back, and to cancel the context then or not
  pub fetching : ℕ
  pub returning : ℕ
  pub returning_invalid : ℕ
  pub cancelling : ℕ
  -- about to check the time to live; about to give the token back
  pub checking : ℕ
  pub checked : ℕ
  pub oboe : Oboe F R C

module _ {F R C : Type 0} where
  unfoldable pub start_updater : Oboe F R C → Updater F R C
  start_updater o = record {
    looping = true;
    done = false;
    update_ready = true;
    ttl_ready = true;
    fetching = 0;
    returning = 0;
    returning_invalid = 0;
    cancelling = 0;
    checking = 0;
    checked = 0;
    oboe = o;
  }

  -- A tick of the update timer, in the select loop.
  unfoldable pub update_tick : Updater F R C → Updater F R C
  update_tick u =
      if u.update_ready then record u { update_ready = false; fetching = u.fetching + 1 } else u

  unfoldable pub ttl_tick : Updater F R C → Updater F R C
  ttl_tick u = if u.ttl_ready then record u { ttl_ready = false; checking = u.checking + 1 } else u

-- What happens to an Oboe in getAndUpdateSettings; `none` is a panic.
unfoldable pub apply_answer :
    {F R C : Type 0} ⦃fl : Float64 F⦄
    → LocalConfig
    → ℕ
    → Answer F
    → Oboe F R C
    → Option (Oboe F R C)
unfolding http_update_args
apply_answer conf now (retrieved s) o = do
  args ← http_update_args s
  some (update_setting conf now args o)
apply_answer conf now invalid_service_key o = some o
apply_answer conf now other_error o = some o

unfoldable pub is_invalid_key : {F : Type 0} → Answer F → Bool
is_invalid_key invalid_service_key = true
is_invalid_key _ = false

module _ {F R C : Type 0} where
  -- getAndUpdateSettings has returned with the Oboe it leaves, but for its deferred send.
  unfoldable pub answered : Bool → ℕ → Oboe F R C → Updater F R C → Updater F R C
  answered invalid left o u =
      if invalid
      then record u { fetching = left; oboe = o; returning_invalid = u.returning_invalid + 1 }
      else record u { fetching = left; oboe = o; returning = u.returning + 1 }
