-- ===== src/Oboe/Urls/Lookup.antt =====
-- What the filter list says of a URL.
use apm_go.Prelude.{
  Bool, true, false, List, [], ◌∷◌, ◌++◌, Option, none, some, Bytes, is_empty, ◌≡◌, refl, arith,
  if◌then◌else◌, All,
}
use apm_go.Oboe.Flags.{trace_unknown, new_tracing_mode}
use apm_go.Oboe.Urls.{
  Regexps, TransactionFilter, match, filter_mode, load_filter, load_filters, lookup_tracing_mode,
  has_ext, url_ext,
}

-- What a configured filter says of a URL: its pattern decides if it has one, and else its extensions;
-- a pattern that does not compile says nothing.
module _ (R : Type 0) ⦃rx : Regexps R⦄ where
  abbrev pub verdict : TransactionFilter → Bytes → Option Bool
  verdict f url =
      if is_empty f.regex
      then some (has_ext f.extensions (url_ext url))
      else elim (rx.compile f.regex) [ none ↦ none | some r ↦ some (rx.matches r url) ]

  pub match-load_filter :
      (f : TransactionFilter) (url : Bytes) → match (load_filter {R = R} f) url ≡ verdict f url
  unfolding match load_filter
  match-load_filter f url = ground arith

  pub filter_mode-load_filter :
      (f : TransactionFilter) (url : Bytes)
      → verdict f url ≡ some true
      → filter_mode (load_filter {R = R} f) ≡ some (new_tracing_mode f.tracing)
  unfolding filter_mode load_filter
  filter_mode-load_filter f url h = ground arith

  -- The filters before the first that takes the URL do not matter, nor do those behind it.
  pub lookup_first :
      (before after : List TransactionFilter) (f : TransactionFilter) (url : Bytes)
      → All (λ g. verdict g url ≡ some false) before
      → verdict f url ≡ some true
      → lookup_tracing_mode (load_filters {R = R} (before ++ f ∷ after)) url
        ≡ some (new_tracing_mode f.tracing)
  unfolding lookup_tracing_mode load_filters
  lookup_first [] after f url skip h =
      ground (arith, match-load_filter f url, filter_mode-load_filter f url h)
  lookup_first (g ∷ before) after f url skip h =
      ground (arith, match-load_filter g url, lookup_first before after f url skip.1 h)

  -- A URL that no filter takes has no mode of its own.
  pub lookup_unknown :
      (fs : List TransactionFilter) (url : Bytes)
      → All (λ g. verdict g url ≡ some false) fs
      → lookup_tracing_mode (load_filters {R = R} fs) url ≡ some trace_unknown
  unfolding lookup_tracing_mode load_filters
  lookup_unknown [] url skip = refl
  lookup_unknown (g ∷ fs) url skip =
      ground (arith, match-load_filter g url, lookup_unknown fs url skip.1)

  -- A pattern that does not compile is not ignored: the lookup of every URL that reaches it panics.
  pub lookup_bad_regex :
      (before after : List TransactionFilter) (f : TransactionFilter) (url : Bytes)
      → All (λ g. verdict g url ≡ some false) before
      → is_empty f.regex ≡ false
      → rx.compile f.regex ≡ none
      → lookup_tracing_mode (load_filters {R = R} (before ++ f ∷ after)) url ≡ none
  unfolding lookup_tracing_mode load_filters
  lookup_bad_regex [] after f url skip h bad = ground (arith, match-load_filter f url)
  lookup_bad_regex (g ∷ before) after f url skip h bad =
      ground (arith, match-load_filter g url, lookup_bad_regex before after f url skip.1 h bad)
