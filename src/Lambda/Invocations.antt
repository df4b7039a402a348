-- ===== src/Lambda/Invocations.antt =====
-- The spans of a process's invocations.
use apm_go.Prelude.{
  ◌+◌, Bool, true, false, not, List, [], ◌∷◌, Option, none, some, ◌≡◌, refl, arith, Bytes, length,
  All, if◌then◌else◌,
}
use apm_go.Lambda.{
  BaseOutcome, returned, panicked, WrappedHandler, InvocationSpan, Process, panic_error,
  panic_string, panic_other, started_span, marked_span, invoke, invocations, wrap_handler,
}

-- An outcome with an error or a panic.
abbrev pub is_failed : {A : Type 0} → BaseOutcome A → Bool
is_failed (returned res none) = false
is_failed (returned res (some e)) = true
is_failed (panicked v) = true

abbrev pub has_error : InvocationSpan → Bool
has_error s = elim s.error_status [ none ↦ false | some e ↦ true ]

abbrev pub failures : {A : Type 0} → List (Option Bytes × BaseOutcome A) → List Bool
failures [] = []
failures ((id, base) ∷ calls) = is_failed base ∷ failures calls

abbrev pub error_flags : List InvocationSpan → List Bool
error_flags [] = []
error_flags (s ∷ ss) = has_error s ∷ error_flags ss

abbrev pub cold_flags : List InvocationSpan → List Bool
cold_flags [] = []
cold_flags (s ∷ ss) = s.cold_start ∷ cold_flags ss

-- One flag for each call: true for the first if the process is cold, and false for the others.
abbrev pub first_only : {A : Type 0} → Bool → List A → List Bool
first_only cold [] = []
first_only cold (x ∷ xs) = cold ∷ first_only false xs

marked-error :
    {A : Type 0} (base : BaseOutcome A) (s : InvocationSpan)
    → has_error (marked_span base (record s { error_status = none })) ≡ is_failed base
unfolding marked_span
marked-error (returned res none) s = refl
marked-error (returned res (some e)) s = refl
marked-error (panicked (panic_error e)) s = refl
marked-error (panicked (panic_string x)) s = refl
marked-error (panicked panic_other) s = refl

marked-cold :
    {A : Type 0} (base : BaseOutcome A) (s : InvocationSpan)
    → (marked_span base s).cold_start ≡ s.cold_start
unfolding marked_span
marked-cold (returned res none) s = refl
marked-cold (returned res (some e)) s = refl
marked-cold (panicked (panic_error e)) s = refl
marked-cold (panicked (panic_string x)) s = refl
marked-cold (panicked panic_other) s = refl

-- Over all invocations of a process, whether the base handler returns a result, returns an error or panics: each has a span that
-- is ended, the metrics are flushed once for each where there is a flusher, the spans with an error status are those whose
-- handler failed, and only the first span of a fresh process is a cold start.
pub invocations_lem :
    {A : Type 0} (w : WrappedHandler) (calls : List (Option Bytes × BaseOutcome A)) (p : Process)
    → let (spans, last) = invocations w calls p in
      All (λ s. s.ended ≡ true) spans
      × (error_flags spans ≡ failures calls)
      × (cold_flags spans ≡ first_only (not p.warm_start) calls)
      × (length last.flushes
          ≡ (if p.has_flusher then length calls + length p.flushes else length p.flushes))
unfolding invocations
invocations_lem w [] p = (tt, refl, refl, ground arith)
invocations_lem w ((id, base) ∷ calls) p =
    let (ended, errors, cold, flushed) = invocations_lem w calls (invoke w id base p).1 in
    (
      (refl, ended),
      ground (arith, marked-error base (started_span w id p)),
      ground (arith, marked-cold base (started_span w id p)),
      ground arith,
    )

-- The first handler of a process, wrapped again or not: only its first invocation is a cold start, and the metrics are flushed once
-- for each invocation exactly if StartLambda had no error.
pub invocations-wrap_handler :
    {A X : Type 0} (getenv : Bytes → Bytes) (started again : Option X)
    (calls : List (Option Bytes × BaseOutcome A))
    → let (first, p) = wrap_handler getenv started none in
      let (w, q) = wrap_handler getenv again (some p) in
      let (spans, last) = invocations w calls q in
      (w ≡ first)
      × (cold_flags spans ≡ first_only true calls)
      × (length last.flushes ≡ elim started [ none ↦ 0 | some flusher ↦ length calls ])
unfolding wrap_handler
invocations-wrap_handler getenv started again calls =
    let (w, q) = wrap_handler getenv started none in
    let (ended, errors, cold, flushed) = invocations_lem w calls q in
    (refl, cold, ground (arith, flushed))
