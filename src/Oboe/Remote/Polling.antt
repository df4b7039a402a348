-- ===== src/Oboe/Remote/Polling.antt =====
-- The poller beside the sampler: its steps in any order, that its goroutines do not overlap, and what holds of
-- the settings throughout.
use apm_go.Prelude.{
  ℕ, suc, ◌+◌, true, false, none, some, ◌≡◌, arith, if◌then◌else◌, Option-cases, inl, inr,
}
use apm_go.Float.{Float64, FloatLaws}
use apm_go.Oboe.Life.{SettingsUpdateArgs, check_settings_timeout}
use apm_go.Oboe.Life.Invariant.{RateInRange, SettingsValid, IsValid, step-IsValid, emptied-IsValid}
use apm_go.Oboe.Life.Calls.{Call, updates, CallNonneg, ArgsNonneg, step}
use apm_go.Oboe.Request.{Oboe}
use apm_go.Oboe.Settings.{LocalConfig, Settings}
use apm_go.Oboe.Urls.{Regexps, Cache}
use apm_go.Oboe.Remote.{
  Updater, RemoteSettings, Answer, retrieved, invalid_service_key, other_error, http_update_args,
  start_updater, update_tick, ttl_tick, apply_answer, is_invalid_key, answered,
}

-- The server's settings are given by a predicate.
abbrev pub IsServed : {F : Type 0} → (RemoteSettings F → Type 0) → Answer F → Type 0
IsServed served (retrieved s) = served s
IsServed served _ = Unit {0}

module _ {F R C : Type 0} ⦃fl : Float64 F⦄ ⦃rx : Regexps R⦄ ⦃ca : Cache C⦄
    (served : RemoteSettings F → Type 0) (conf : LocalConfig) where
  -- One step of the loop, of a goroutine, or of the rest of the program on the Oboe. A goroutine that gives its token back
  -- needs room in the channel, and one that panics ends the program, so it makes no step.
  pub data Step : Updater F R C → Updater F R C → Type 0 where
    ticks_update : (u : Updater F R C) → u.looping ≡ true → Step u (update_tick u)
    ticks_ttl : (u : Updater F R C) → u.looping ≡ true → Step u (ttl_tick u)
    stops :
        (u : Updater F R C)
        → u.looping ≡ true
        → u.done ≡ true
        → Step u (record u { looping = false })
    cancelled_outside : (u : Updater F R C) → Step u (record u { done = true })
    answers :
        (u : Updater F R C) (left now : ℕ) (a : Answer F) (o : Oboe F R C)
        → u.fetching ≡ suc left
        → IsServed served a
        → apply_answer conf now a u.oboe ≡ some o
        → Step u (answered (is_invalid_key a) left o u)
    returns :
        (u : Updater F R C) (left : ℕ)
        → u.returning ≡ suc left
        → u.update_ready ≡ false
        → Step u (record u { returning = left; update_ready = true })
    returns_invalid :
        (u : Updater F R C) (left : ℕ)
        → u.returning_invalid ≡ suc left
        → u.update_ready ≡ false
        → Step u (record u {
          returning_invalid = left;
          update_ready = true;
          cancelling = u.cancelling + 1;
        })
    cancels :
        (u : Updater F R C) (left : ℕ)
        → u.cancelling ≡ suc left
        → Step u (record u { cancelling = left; done = true })
    checks_ttl :
        (u : Updater F R C) (left now : ℕ)
        → u.checking ≡ suc left
        → Step u (record u {
          checking = left;
          checked = u.checked + 1;
          oboe = check_settings_timeout now u.oboe;
        })
    returns_check :
        (u : Updater F R C) (left : ℕ)
        → u.checked ≡ suc left
        → u.ttl_ready ≡ false
        → Step u (record u { checked = left; ttl_ready = true })
    uses :
        (u : Updater F R C) (c : Call F) (o : Oboe F R C)
        → CallNonneg c
        → step conf c u.oboe ≡ some o
        → Step u (record u { oboe = o })

  pub data Reachable (o : Oboe F R C) : Updater F R C → Type 0 where
    begins : Reachable o (start_updater o)
    continues : (u v : Updater F R C) → Reachable o u → Step u v → Reachable o v

  -- The token of a semaphore is in the channel or with one goroutine.
  abbrev pub OneToken : Updater F R C → Type 0
  OneToken u =
      ((if u.update_ready then 1 else 0) + u.fetching + u.returning + u.returning_invalid ≡ 1)
      × ((if u.ttl_ready then 1 else 0) + u.checking + u.checked ≡ 1)

  Step-OneToken : (u v : Updater F R C) → Step u v → OneToken u → OneToken v
  unfolding update_tick ttl_tick answered
  Step-OneToken u v (ticks_update _ l) h = ground arith
  Step-OneToken u v (ticks_ttl _ l) h = ground arith
  Step-OneToken u v (stops _ l d) h = h
  Step-OneToken u v (cancelled_outside _) h = h
  Step-OneToken u v (answers _ left now a o f s e) h = ground arith
  Step-OneToken u v (returns _ left r e) h = ground arith
  Step-OneToken u v (returns_invalid _ left r e) h = ground arith
  Step-OneToken u v (cancels _ left r) h = h
  Step-OneToken u v (checks_ttl _ left now r) h = ground arith
  Step-OneToken u v (returns_check _ left r e) h = ground arith
  Step-OneToken u v (uses _ c o a e) h = h

  -- However the steps interleave, at most one goroutine fetches settings and at most one checks their time to live, and
  -- each of them has the one token, so that the channel to which it gives it back is empty.
  pub Reachable-OneToken :
      (o : Oboe F R C) (u : Updater F R C)
      → Reachable o u
      → ((if u.update_ready then 1 else 0) + u.fetching + u.returning + u.returning_invalid ≡ 1)
        × ((if u.ttl_ready then 1 else 0) + u.checking + u.checked ≡ 1)
  unfolding start_updater
  Reachable-OneToken o u begins = (omega arith, omega arith)
  Reachable-OneToken o v (continues u _ r s) = Step-OneToken u v s (Reachable-OneToken o u r)

  module _ (laws : FloatLaws F) (range : RateInRange conf)
      (nonneg : (s : RemoteSettings F) (arg : SettingsUpdateArgs F)
        → served s
        → http_update_args s ≡ some arg
        → ArgsNonneg arg) where
    answer-IsValid :
        (now : ℕ) (a : Answer F) (o o' : Oboe F R C)
        → IsServed served a
        → apply_answer conf now a o ≡ some o'
        → IsValid o
        → IsValid o'
    unfolding apply_answer step
    answer-IsValid now (retrieved s) o o' h e v = elim (Option-cases (http_update_args s)) [
      | inl f ↦ absurd (ground arith)
      | inr (arg, f) ↦
          step-IsValid laws conf range (updates now arg) o o' (nonneg s arg h f) (ground arith) v
    ]
    answer-IsValid now invalid_service_key o o' h e v = λ s' e'. v s' (ground arith)
    answer-IsValid now other_error o o' h e v = λ s' e'. v s' (ground arith)

    Step-IsValid : (u v : Updater F R C) → Step u v → IsValid u.oboe → IsValid v.oboe
    unfolding update_tick ttl_tick answered
    Step-IsValid u v (ticks_update _ l) h = λ s e. h s (ground arith)
    Step-IsValid u v (ticks_ttl _ l) h = λ s e. h s (ground arith)
    Step-IsValid u v (stops _ l d) h = h
    Step-IsValid u v (cancelled_outside _) h = h
    Step-IsValid u v (answers _ left now a o f s e) h =
        let w = answer-IsValid now a u.oboe o s e h in λ s' e'. w s' (ground arith)
    Step-IsValid u v (returns _ left r e) h = h
    Step-IsValid u v (returns_invalid _ left r e) h = h
    Step-IsValid u v (cancels _ left r) h = h
    Step-IsValid u v (checks_ttl _ left now r) h =
        λ s e. h s (unfold check_settings_timeout in ground arith)
    Step-IsValid u v (returns_check _ left r e) h = h
    Step-IsValid u v (uses _ c o a e) h = step-IsValid laws conf range c u.oboe o a e h

    Reachable-IsValid :
        (o : Oboe F R C) (u : Updater F R C) → IsValid o → Reachable o u → IsValid u.oboe
    unfolding start_updater
    Reachable-IsValid o u h begins = h
    Reachable-IsValid o v h (continues u _ r s) = Step-IsValid u v s (Reachable-IsValid o u h r)

    -- Beside any use of the Oboe, while the server sends numbers of at least 0 and the local rate is in its range: at every
    -- moment of a poller that started with no settings, the settings in force have a rate between 0 and
    -- 1000000, flags below 64, and three buckets that hold between 0 and their capacities.
    pub Reachable-SettingsValid :
        (o : Oboe F R C) (u : Updater F R C) (s : Settings F)
        → o.settings ≡ none
        → Reachable o u
        → u.oboe.settings ≡ some s
        → SettingsValid s
    Reachable-SettingsValid o u s e r stored =
        Reachable-IsValid o u (emptied-IsValid laws conf range o e) r s stored
