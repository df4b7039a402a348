-- ===== src/Oboe/Life/Expiry.antt =====
-- How long settings last, that no call of the sampler panics, and what an update does to the buckets.
use apm_go.Prelude.{
  ℕ, ◌-◌, ◌*◌, ◌/◌, ◌^◌, ◌<◌, ◌≤◌, Bool, true, ◌&&◌, List, [], ◌∷◌, none, some, ◌≡◌, refl, arith,
  Option-cases, if◌then◌else◌, inl, inr,
}
use apm_go.Prelude.Int.{ℤ, pos, ◌+ℤ◌, ◌*ℤ◌, leb_ℤ, -ℤ_parts}
use apm_go.Float.{Float64}
use apm_go.Float.Exact.{units, exact, mul_exact}
use apm_go.Oboe.Bucket.{TokenBucket, consume, update, new_bucket, set_rate_cap}
use apm_go.Oboe.Settings.{LocalConfig, Settings, merge_local_setting, merge_url_setting}
use apm_go.Oboe.Request.{Oboe, sample_request, decide}
use apm_go.Oboe.Time.{is_expired, sub_time, max_duration}
use apm_go.Oboe.Urls.{Regexps, Cache}
use apm_go.Oboe.Life.{
  SettingsUpdateArgs, new_oboe_settings, updated_settings, update_setting, check_settings_timeout,
}
use apm_go.Oboe.Life.Calls.{Call, updates, checks, removes, flushes, requests, step, run}

module _ {F R C : Type 0} where
  -- Expiry checks at the given times.
  pub check_all : List ℕ → Oboe F R C → Oboe F R C
  check_all [] o = o
  check_all (now ∷ times) o = check_all times (check_settings_timeout now o)

-- No time lies behind the end of the time to live.
abbrev pub none_behind : ℤ → List ℕ → Bool
none_behind end [] = true
none_behind end (now ∷ times) = leb_ℤ (pos now) end && none_behind end times

module _ {F R C : Type 0} where
  check_none : (times : List ℕ) (o : Oboe F R C) → o.settings ≡ none → check_all times o ≡ o
  unfolding check_all check_settings_timeout
  check_none [] o e = refl
  check_none (now ∷ times) o e = ground (arith, check_none times o e)

  check_some :
      (times : List ℕ) (o : Oboe F R C) (s : Settings F)
      → o.settings ≡ some s
      → check_all times o
        ≡ (if none_behind (pos s.timestamp +ℤ s.ttl) times then o else record o { settings = none })
  unfolding check_all check_settings_timeout is_expired
  check_some [] o s e = refl
  check_some (now ∷ times) o s e =
      ground (arith, check_none times (record o { settings = none }) refl, check_some times o s e)

updated_parts :
    {F : Type 0} ⦃fl : Float64 F⦄ (conf : LocalConfig) (t : ℕ) (arg : SettingsUpdateArgs F)
    → let s = updated_settings conf t arg in
      (s.timestamp ≡ t)
      × (s.ttl ≡ arg.ttl)
      × (s.bucket ≡ set_rate_cap arg.bucket_rate arg.bucket_capacity new_bucket)
unfolding updated_settings merge_local_setting new_oboe_settings
updated_parts conf t arg = ground arith

module _ {F R C : Type 0} ⦃fl : Float64 F⦄ where
  -- Settings stored at t stay as they are through expiry checks until t plus their time to live, and are gone
  -- after any later check; the counters and the URL filters are untouched.
  pub check_all-update_setting :
      (conf : LocalConfig) (t : ℕ) (arg : SettingsUpdateArgs F) (times : List ℕ) (o : Oboe F R C)
      → check_all times (update_setting conf t arg o) ≡ (
          if none_behind (pos t +ℤ arg.ttl) times
          then update_setting conf t arg o
          else record o { settings = none })
  unfolding update_setting
  check_all-update_setting conf t arg times o =
      let s = updated_settings conf t arg in
      ground
        (arith, updated_parts conf t arg, check_some times (update_setting conf t arg o) s refl)

-- The sampler asks with an empty URL.
abbrev pub AsksNoUrl : {F : Type 0} → Call F → Type 0
AsksNoUrl (requests now roll continued url mode sw) = url ≡ []
AsksNoUrl _ = Unit {0}

abbrev pub AllAskNoUrl : {F : Type 0} → List (Call F) → Type 0
AllAskNoUrl [] = Unit {0}
AllAskNoUrl (c ∷ cs) = AsksNoUrl c × AllAskNoUrl cs

module _ {F R C : Type 0} ⦃fl : Float64 F⦄ ⦃rx : Regexps R⦄ ⦃ca : Cache C⦄ where
  step-AsksNoUrl :
      (conf : LocalConfig) (c : Call F) (o : Oboe F R C)
      → AsksNoUrl c
      → (o' : Oboe F R C) × (step conf c o ≡ some o')
  unfolding step sample_request merge_url_setting
  step-AsksNoUrl conf (updates now arg) o h = (_, refl)
  step-AsksNoUrl conf (checks now) o h = (_, refl)
  step-AsksNoUrl conf removes o h = (_, refl)
  step-AsksNoUrl conf flushes o h = (_, refl)
  step-AsksNoUrl conf (requests now roll continued url mode sw) o h =
      elim (Option-cases o.settings) [
        | inl e ↦ (o, ground arith)
        | inr (s, e) ↦
            let out = decide now roll continued mode sw s o.rates (s.value, s.flags, s.source) in
            (record { settings = some out.0; rates = out.1; urls = o.urls }, ground arith)
      ]

  -- No history panics in which the requests have no URL, as the sampler makes them.
  pub run-AllAskNoUrl :
      (conf : LocalConfig) (cs : List (Call F)) (o : Oboe F R C)
      → AllAskNoUrl cs
      → (o' : Oboe F R C) × (run conf cs o ≡ some o')
  unfolding run
  run-AllAskNoUrl conf [] o h = (o, refl)
  run-AllAskNoUrl conf (c ∷ cs) o h =
      let (o1, e) = step-AsksNoUrl conf c o h.0 in
      let (o2, e2) = run-AllAskNoUrl conf cs o1 h.1 in (o2, rw (e, run) e2)

-- Nanoseconds from the year 1 to any time after the year 293 exceed the longest duration.
sub_time_long : (now : ℕ) → 2 ^ 63 ≤ now → sub_time now 0 ≡ pos max_duration
unfolding sub_time
sub_time_long now h = ground arith

gain_exact : (r d : ℕ) → pos 0 +ℤ mul_exact (pos r) (pos d) ≡ pos (r * d / units)
unfolding ◌+ℤ◌ ◌*ℤ◌
gain_exact r d = ground arith

abbrev fresh_bucket : ℕ → ℕ → TokenBucket ℤ
fresh_bucket r c = record { rate_per_sec = pos r; capacity = pos c; available = pos 0; last = 0 }

set_rate_cap_fresh : (r c : ℕ) → set_rate_cap (pos r) (pos c) new_bucket ≡ fresh_bucket r c
unfolding set_rate_cap new_bucket
set_rate_cap_fresh r c = ground arith

update_fresh :
    (now r c : ℕ)
    → 2 ^ 63 ≤ now
    → 0 < c
    → c ≤ r * max_duration / units
    → (update now (fresh_bucket r c)).available ≡ pos c
unfolding update
update_fresh now r c late some_room fills =
    ground (arith, sub_time_long now late, gain_exact r max_duration)

-- An update starts its bucket as if it had never been asked: the first request finds it full, whatever was
-- taken before the update, if the rate fills it in the longest duration (292 years).
pub update_setting_refills :
    (conf : LocalConfig) (t now r c : ℕ) (arg : SettingsUpdateArgs ℤ)
    → 2 ^ 63 ≤ now
    → arg.bucket_rate ≡ pos r
    → arg.bucket_capacity ≡ pos c
    → units ≤ c
    → c ≤ r * max_duration / units
    → let (left, took) = consume now (pos units) (updated_settings conf t arg).bucket in
      (took ≡ true) × (left.available ≡ pos (c - units))
unfolding consume
update_setting_refills conf t now r c arg late er ec one fills =
    rw ((updated_parts conf t arg).2, er, ec, set_rate_cap_fresh)
      (ground (arith, update_fresh now r c late (omega arith) fills, -ℤ_parts (pos c) (pos units)))
