-- ===== src/Tests/Fixtures.antt =====
-- Instances of the packages that the code uses, and their laws, for the tests.
use apm_go.Prelude.{
  ℕ, ◌%◌, Bool, true, false, not, List, [], ◌∷◌, ◌++◌, Option, none, some, ◌≡◌, refl, sym, inl, inr,
  ◌⊎◌, arith, Bytes, codes, bytes_eq, bytes_eq_sound, bytes_eq_refl, is_empty, starts_with, ◌==◌,
  if◌then◌else◌, Bool-cases, Lacks,
}
use apm_go.Otel.{TraceStates, TraceStateLaws, SpanContext, SpanContexts}
use apm_go.Oboe.Urls.{Regexps, Cache, CacheLaws}
use apm_go.Propagator.{Carriers}
use apm_go.Propagator.RoundTrip.{WireLaws}
use apm_go.Sampler.{SamplingResult, SdkSamplers, record_and_sample, drop}
use apm_go.Txn.{Semconv}
use apm_go.Xtrace.{Hmac}

-- A pattern is a prefix, and `[` does not compile.
instance abbrev pub prefixes : Regexps Bytes
prefixes = record {
  compile = λ p. if bytes_eq p (codes "[") then none else some p;
  matches = starts_with;
}

abbrev pub Pairs : Type 0
Pairs = List (Bytes × Bytes)

abbrev pub find : Bytes → Pairs → Option Bytes
find k [] = none
find k ((j, v) ∷ m) = if bytes_eq j k then some v else find k m

-- A cache that keeps everything.
instance abbrev pub keep_all : Cache Pairs
keep_all = record {
  empty = [];
  get = λ t k c. find k c;
  set = λ now k v n c. (k, v) ∷ c;
  clear = λ c. [];
}

keeps-get-set :
    (j k v w : Bytes) (c : Pairs)
    → find j ((k, v) ∷ c) ≡ some w
    → ((j ≡ k) × (w ≡ v)) ⊎ (find j c ≡ some w)
keeps-get-set j k v w c h = elim (Bool-cases (bytes_eq k j)) [
  | inl same ↦ inl (sym (bytes_eq_sound k j same), ground arith)
  | inr other ↦ inr (ground arith)
]

pub keep_all-CacheLaws : CacheLaws Pairs
keep_all-CacheLaws = record {
  get-empty = λ t k. refl;
  get-clear = λ t k c. refl;
  get-set = λ t now n j k v w c. keeps-get-set j k v w c;
}

-- A trace state of at most one member, under a key.
abbrev pub only : Bytes → TraceStates Bytes
only key = record {
  empty = [];
  get = λ t k. if bytes_eq k key then t else [];
  insert = λ t k v. if bytes_eq k key then (v, true) else (t, false);
  delete = λ t k. if bytes_eq k key then [] else t;
  parse = λ s. some s;
  print = λ t. t;
  len = λ t. if is_empty t then 0 else 1;
}

only-get-insert :
    (key t t' k v : Bytes)
    → ◌≡◌ {A = Bytes × Bool} (if bytes_eq k key then (v, true) else (t, false)) (t', true)
    → (if bytes_eq k key then t' else []) ≡ v
only-get-insert key t t' k v h = ground arith

only-insert_failed :
    (key t t' k v : Bytes)
    → ◌≡◌ {A = Bytes × Bool} (if bytes_eq k key then (v, true) else (t, false)) (t', false)
    → t' ≡ t
only-insert_failed key t t' k v h = ground arith

only-get-delete :
    (key t j k : Bytes)
    → (if bytes_eq j key then (if bytes_eq k key then [] else t) else [])
      ≡ (if bytes_eq j k then [] else (if bytes_eq j key then t else []))
only-get-delete key t j k =
    ground (arith, bytes_eq_sound j key, bytes_eq_sound k key, bytes_eq_sound j k, bytes_eq_refl j)

pub only-TraceStateLaws : (key : Bytes) → TraceStateLaws Bytes ⦃ts = only key⦄
only-TraceStateLaws key = record {
  get-insert = only-get-insert key;
  insert_failed = only-insert_failed key;
  get-delete = only-get-delete key;
}

-- A span context with a span's id is valid, and an odd byte of flags is sampled.
instance abbrev pub contexts : SpanContexts Bytes
contexts = record {
  is_valid = λ ctx. not (is_empty ctx.span_id);
  is_sampled = λ flags. flags % 2 == 1;
}

instance abbrev pub hmac : Hmac
hmac = record { hmac_hash = ◌++◌ }

abbrev constant_result : Bool → SpanContext Bytes → SamplingResult Bytes
constant_result sampled ctx = record {
  decision = if sampled then record_and_sample else drop;
  trace_state = ctx.trace_state;
  attributes = [];
}

instance abbrev pub sdk_samplers : SdkSamplers Bytes
sdk_samplers = record { always = constant_result true; never = constant_result false }

instance abbrev pub header_map : Carriers (Bytes → Bytes)
header_map = record { get = λ k key. k key; set = λ k key v j. if bytes_eq j key then v else k j }

pub header_map-WireLaws : (key : Bytes) → WireLaws Bytes (Bytes → Bytes) ⦃ts = only key⦄
header_map-WireLaws key = record {
  get-set = λ k j v. rw (bytes_eq_refl j) refl;
  parse-print = λ t. refl;
}

instance abbrev pub semconv : Semconv
semconv = record {
  faas_name_key = codes "faas.name";
  http_route_key = codes "http.route";
  url_path_key = codes "url.path";
  http_target_key = codes "http.target";
}

abbrev pub eight_bytes : Bytes
eight_bytes = 1 ∷ 2 ∷ 3 ∷ 4 ∷ 5 ∷ 6 ∷ 7 ∷ 255 ∷ []

abbrev pub sampled_context : SpanContext Bytes
sampled_context = record {
  trace_id = codes "trace";
  span_id = eight_bytes;
  trace_flags = 1;
  trace_state = [];
  is_remote = true;
}

abbrev pub has_byte : ℕ → Bytes → Bool
has_byte b [] = false
has_byte b (c ∷ s) = let rest = has_byte b s in if c == b then true else rest

pub has_byte-Lacks : (b : ℕ) (s : Bytes) → has_byte b s ≡ false → Lacks b s
has_byte-Lacks b [] h = tt
has_byte-Lacks b (c ∷ s) h = (ground arith, has_byte-Lacks b s (ground arith))
