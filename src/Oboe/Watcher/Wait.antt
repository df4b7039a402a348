-- ===== src/Oboe/Watcher/Wait.antt =====
-- How the wait for the settings file ends.
use apm_go.Prelude.{
  ℕ, zero, suc, Bool, true, false, ◌&&◌, List, [], ◌∷◌, ◌≡◌, refl, arith, ◌≤◌, take, ltb,
  if◌then◌else◌,
}
use apm_go.Oboe.Watcher.{
  WaitEvent, stat_found, stat_missing, stat_failed, deadline, WaitResult, waiting, found, failed,
  timed_out, wait_loop,
}

-- What os.Stat says at a tick: the file is there, is not there, or cannot be looked at.
pub data StatAnswer : Type 0 where
  exists absent broken : StatAnswer

abbrev pub event_of : StatAnswer → WaitEvent
event_of exists = stat_found
event_of absent = stat_missing
event_of broken = stat_failed

-- What the loop selects if the context ends behind a number of ticks, by what os.Stat says at each.
abbrev pub timeline : (ℕ → StatAnswer) → ℕ → List WaitEvent
timeline stat zero = deadline ∷ []
timeline stat (suc ticks) = event_of (stat 0) ∷ timeline (λ k. stat (suc k)) ticks

-- The result that a tick's answer has.
abbrev pub result_of : StatAnswer → WaitResult
result_of exists = found
result_of absent = waiting
result_of broken = failed

abbrev is_absent : StatAnswer → Bool
is_absent exists = false
is_absent absent = true
is_absent broken = false

abbrev pub all_absent : (ℕ → StatAnswer) → ℕ → Bool
all_absent stat zero = true
all_absent stat (suc k) = let rest = all_absent (λ j. stat (suc j)) k in is_absent (stat 0) && rest

abbrev pub is_waiting : WaitResult → Bool
is_waiting waiting = true
is_waiting found = false
is_waiting failed = false
is_waiting timed_out = false

wait_loop-timeline :
    (stat : ℕ → StatAnswer) (ticks : ℕ) → is_waiting (wait_loop (timeline stat ticks)) ≡ false
unfolding wait_loop
wait_loop-timeline stat zero = refl
wait_loop-timeline stat (suc ticks) =
    let rest = wait_loop-timeline (λ k. stat (suc k)) ticks in ground arith

wait_loop-take :
    (stat : ℕ → StatAnswer) (ticks k : ℕ)
    → k ≤ ticks
    → all_absent stat k ≡ true
    → (wait_loop (take k (timeline stat ticks)) ≡ waiting)
      × (wait_loop (take (suc k) (timeline stat ticks))
          ≡ (if ltb k ticks then result_of (stat k) else timed_out))
unfolding wait_loop
wait_loop-take stat zero zero h a = (refl, refl)
wait_loop-take stat (suc ticks) zero h a = (refl, ground arith)
wait_loop-take stat zero (suc k) h a = absurd (omega (arith, h))
wait_loop-take stat (suc ticks) (suc k) h a =
    let rest = wait_loop-take (λ j. stat (suc j)) ticks k (omega (arith, h)) (ground arith) in
    ground arith

-- While the file is not there at the first k ticks, of those before the context ends, the wait goes on through them. The next
-- event ends it if the file is there then, which finds it, if os.Stat fails otherwise, or if the context ends. With the end of
-- the context the wait has ended in any case.
pub wait_loop_ends :
    (stat : ℕ → StatAnswer) (ticks k : ℕ)
    → k ≤ ticks
    → all_absent stat k ≡ true
    → (wait_loop (take k (timeline stat ticks)) ≡ waiting)
      × (wait_loop (take (suc k) (timeline stat ticks))
          ≡ (if ltb k ticks then result_of (stat k) else timed_out))
      × (is_waiting (wait_loop (timeline stat ticks)) ≡ false)
wait_loop_ends stat ticks k h a =
    let (early, late) = wait_loop-take stat ticks k h a in
    (early, late, wait_loop-timeline stat ticks)
