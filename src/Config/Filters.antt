-- ===== src/Config/Filters.antt =====
-- Transaction filters from YAML, in front of the URL filters that are made of them.
use apm_go.Prelude.{
  List, [], ◌∷◌, Option, none, some, ◌≡◌, ◌⊎◌, inl, inr, refl, arith, Bytes, bytes_eq,
  bytes_eq_sound, All, Option-cases, if◌then◌else◌,
}
use apm_go.Config.Yaml.{FilterFields, tf_ok, url_type, no_fields, checked_filter, unmarshal_filter}
use apm_go.Oboe.Flags.{
  TracingMode, trace_unknown, trace_enabled, trace_disabled, new_tracing_mode, enabled_tracing_mode,
  disabled_tracing_mode,
}
use apm_go.Oboe.Urls.{Regexps, TransactionFilter, lookup_tracing_mode, load_filters}
use apm_go.Oboe.Urls.Lookup.{verdict, match-load_filter, filter_mode-load_filter}

-- A filter that UnmarshalYAML lets through has the type "url", one of the two modes, and not both a pattern and extensions.
pub record IsFilter (f : TransactionFilter) : Type 0 where
  pub of_type : f.filter_type ≡ url_type
  pub mode : (f.tracing ≡ enabled_tracing_mode) ⊎ (f.tracing ≡ disabled_tracing_mode)
  pub one_kind : (f.regex ≡ []) ⊎ (f.extensions ≡ [])

checked_filter-IsFilter :
    (aux : FilterFields) (f : TransactionFilter) → checked_filter aux ≡ tf_ok f → IsFilter f
unfolding checked_filter
checked_filter-IsFilter aux f h = record {
  of_type = ground (arith, bytes_eq_sound aux.filter_type url_type);
  mode = ground (
    arith,
    bytes_eq_sound aux.tracing enabled_tracing_mode,
    bytes_eq_sound aux.tracing disabled_tracing_mode,
  );
  one_kind = ground arith;
}

-- The filter is one that some YAML is read as.
abbrev pub IsUnmarshalled : TransactionFilter → Type 0
IsUnmarshalled f =
    (unmarshal : FilterFields → Option FilterFields) × (unmarshal_filter unmarshal ≡ tf_ok f)

unmarshal_filter_lem : (f : TransactionFilter) → IsUnmarshalled f → IsFilter f
unfolding unmarshal_filter
unmarshal_filter_lem f (unmarshal, h) = elim (Option-cases (unmarshal no_fields)) [
  | inl e ↦ absurd (ground arith)
  | inr (aux, e) ↦ checked_filter-IsFilter aux f (ground arith)
]

module _ (R : Type 0) ⦃rx : Regexps R⦄ where
  -- What the filters say of a URL: `none` where a pattern that does not compile is met first, and else the word of the
  -- first filter that takes the URL.
  abbrev pub first_word : List TransactionFilter → Bytes → Option (Option Bytes)
  first_word [] url = some none
  first_word (f ∷ fs) url =
      let rest = first_word fs url in
      elim (verdict R f url) [
        | none ↦ none
        | some hit ↦ if hit then some (some f.tracing) else rest
      ]

  abbrev pub mode_of : Option Bytes → TracingMode
  mode_of none = trace_unknown
  mode_of (some m) = if bytes_eq m enabled_tracing_mode then trace_enabled else trace_disabled

  mode_of-IsFilter :
      (f : TransactionFilter) → IsFilter f → new_tracing_mode f.tracing ≡ mode_of (some f.tracing)
  unfolding new_tracing_mode bytes_eq
  mode_of-IsFilter f h = elim h.mode [ inl e ↦ rw e refl | inr e ↦ rw e refl ]

  -- For filters that were read from YAML: the first filter that takes a URL decides, and the URL is then enabled or
  -- disabled, never unknown; a URL that none takes is unknown; and the lookup panics just where a pattern that does
  -- not compile is met before.
  pub lookup_unmarshalled :
      (fs : List TransactionFilter) (url : Bytes)
      → All IsUnmarshalled fs
      → lookup_tracing_mode (load_filters {R = R} fs) url
        ≡ elim (first_word fs url) [ none ↦ none | some word ↦ some (mode_of word) ]
  unfolding lookup_tracing_mode load_filters
  lookup_unmarshalled [] url h = refl
  lookup_unmarshalled (f ∷ fs) url h = ground (
    arith,
    match-load_filter R f url,
    filter_mode-load_filter R f url,
    mode_of-IsFilter f (unmarshal_filter_lem f h.0),
    lookup_unmarshalled fs url h.1,
  )
