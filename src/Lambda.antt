-- ===== src/Lambda.antt =====
-- instrumentation/github.com/aws/aws-lambda-go/swolambda/swolambda.go: one invocation of a wrapped handler. What the base handler
-- does is an argument, and what is done to the span is its record.
pub mod Invocations
use apm_go.Prelude.{
  Bool, true, false, not, List, [], ◌∷◌, Option, none, some, Bytes, codes, if◌then◌else◌,
}

-- A value that is recovered: an error with its text, a string, or another.
pub data PanicValue : Type 0 where
  panic_error panic_string : Bytes → PanicValue
  panic_other : PanicValue

-- The base handler returns its result, with the text of an error or with none, or panics.
pub data BaseOutcome (A : Type 0) : Type 0 where
  returned : A → Option Bytes → BaseOutcome A
  panicked : PanicValue → BaseOutcome A

pub record WrappedHandler : Type 0 where
  pub fn_name : Bytes
  pub region : Bytes

-- The span of an invocation.
pub record InvocationSpan : Type 0 where
  pub cold_start : Bool
  pub invoked_name : Bytes
  pub invoked_region : Bytes
  pub invocation_id : Option Bytes
  -- the text of the error status, and the errors that were recorded
  pub error_status : Option Bytes
  pub recorded : List Bytes
  pub ended : Bool

-- What the process keeps between invocations: warmStart, the flusher, and how often it has flushed.
pub record Process : Type 0 where
  pub warm_start : Bool
  pub has_flusher : Bool
  pub flushes : List Bool

unfoldable pub started_span : WrappedHandler → Option Bytes → Process → InvocationSpan
started_span w request_id p = record {
  cold_start = not p.warm_start;
  invoked_name = w.fn_name;
  invoked_region = w.region;
  invocation_id = request_id;
  error_status = none;
  recorded = [];
  ended = false;
}

-- The status and the record of the deferred function for a panic, and of Invoke for an error.
unfoldable pub marked_span : {A : Type 0} → BaseOutcome A → InvocationSpan → InvocationSpan
marked_span (returned res none) s = s
marked_span (returned res (some e)) s = record s { error_status = some e; recorded = e ∷ [] }
marked_span (panicked (panic_error e)) s = record s { error_status = some e; recorded = e ∷ [] }
marked_span (panicked (panic_string x)) s = record s { error_status = some x }
marked_span (panicked panic_other) s = record s {
  error_status = some (codes "Panic from unknown type");
}

-- Invoke: the span, the process, and what the caller sees, for a panic the same panic.
unfoldable pub invoke :
    {A : Type 0}
    → WrappedHandler
    → Option Bytes
    → BaseOutcome A
    → Process
    → InvocationSpan × Process × BaseOutcome A
unfolding started_span marked_span
invoke w request_id base p = (
  record (marked_span base (started_span w request_id p)) { ended = true },
  record p { warm_start = true; flushes = if p.has_flusher then true ∷ p.flushes else p.flushes },
  base,
)

unfoldable pub invocations :
    {A : Type 0}
    → WrappedHandler
    → List (Option Bytes × BaseOutcome A)
    → Process
    → List InvocationSpan × Process
unfolding invoke
invocations w [] p = ([], p)
invocations w ((request_id, base) ∷ calls) p =
    let (span, after, _) = invoke w request_id base p in
    let (spans, last) = invocations w calls after in (span ∷ spans, last)

-- WrapHandler: the handler, and the process, which only the first call initializes. `started` is what StartLambda returns, and
-- getenv is os.Getenv.
unfoldable pub wrap_handler :
    {X : Type 0} → (Bytes → Bytes) → Option X → Option Process → WrappedHandler × Process
wrap_handler getenv started once = (
  record {
    fn_name = getenv (codes "AWS_LAMBDA_FUNCTION_NAME");
    region = getenv (codes "AWS_REGION");
  },
  elim once [
    | some p ↦ p
    | none ↦ record {
      warm_start = false;
      has_flusher = elim started [ none ↦ false | some flusher ↦ true ];
      flushes = [];
    }
  ],
)
