-- ===== src/Agent/Serverless/Begun.antt =====
-- When the agent starts in a lambda environment.
use apm_go.Prelude.{Option, none, some}
use apm_go.Agent.Serverless.{LambdaGlobals}

-- The Oboe that samples the spans of the global tracer.
abbrev pub sampled_by : {X Y G R O : Type 0} → LambdaGlobals X Y G R O → Option O
sampled_by g = elim g.global_tracer [ none ↦ none | some tracer ↦ some tracer.traced_sampler ]
