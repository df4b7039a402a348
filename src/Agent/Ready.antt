-- ===== src/Agent/Ready.antt =====
-- When the agent is ready.
use apm_go.Prelude.{Bool, true, false, ◌||◌, List, [], ◌∷◌, none, some, ◌≡◌, arith, if◌then◌else◌}
use apm_go.Agent.{ReadyEvent, looked, context_done, ready_loop}
use apm_go.Oboe.Life.{has_default_setting}
use apm_go.Oboe.Request.{Oboe}

module _ {F R C : Type 0} where
  -- Whether an Oboe that is looked at before the context is done has settings.
  abbrev pub saw_settings : Oboe F R C → List (ReadyEvent F R C) → Bool
  saw_settings o [] = has_default_setting o
  saw_settings o (looked next ∷ es) = has_default_setting o || saw_settings next es
  saw_settings o (context_done ∷ es) = has_default_setting o

  abbrev pub is_done : List (ReadyEvent F R C) → Bool
  is_done [] = false
  is_done (looked next ∷ es) = is_done es
  is_done (context_done ∷ es) = true

  -- The wait for the agent answers that it is ready just if settings were there at one of its looks, from the first, which is
  -- immediate, to the one before the context ended; it answers that it is not if the context ended without; and else
  -- it still waits.
  pub ready_loop_lem :
      (o : Oboe F R C) (es : List (ReadyEvent F R C))
      → ready_loop o es
        ≡ (if saw_settings o es then some true else if is_done es then some false else none)
  unfolding ready_loop
  ready_loop_lem o [] = ground arith
  ready_loop_lem o (looked next ∷ es) = ground (arith, ready_loop_lem next es)
  ready_loop_lem o (context_done ∷ es) = ground arith
