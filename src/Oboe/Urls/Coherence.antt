-- ===== src/Oboe/Urls/Coherence.antt =====
-- The cache in front of the filters does not change an answer.
use apm_go.Prelude.{
  ℕ, true, false, List, [], ◌∷◌, Option, none, some, Bytes, is_empty, ◌≡◌, refl, ap, inl, inr, ◌⊎◌,
  arith, ◌>>=◌, if◌then◌else◌, ◌||◌, bytes_eq, Option-cases, Bool-cases, ◌∙◌,
}
use apm_go.Oboe.Flags.{TracingMode, trace_unknown, new_tracing_mode, to_string}
use apm_go.Oboe.Urls.{
  Regexps, Cache, CacheLaws, TransactionFilter, UrlFilters, UrlFilter, no_filters, load_filters,
  lookup_tracing_mode, reload_urls_config, set_url_trace, get_url_trace, get_tracing_mode,
  cache_expire_seconds,
}

-- A mode is read back from the text that the cache keeps for it.
pub new_tracing_mode-to_string : (m : TracingMode) → new_tracing_mode (to_string m) ≡ m
unfolding new_tracing_mode to_string bytes_eq
new_tracing_mode-to_string m = ground arith

module _ {R : Type 0} ⦃rx : Regexps R⦄ where
  -- The mode of a URL by the filters alone.
  unfoldable pub plain_mode : Bytes → List (UrlFilter R) → Option TracingMode
  plain_mode url fs = if is_empty url then some trace_unknown else lookup_tracing_mode fs url

module _ {R C : Type 0} ⦃rx : Regexps R⦄ ⦃ca : Cache C⦄ where
  -- Each cached text is the mode that the filters give the URL.
  abbrev pub IsCoherent : UrlFilters R C → Type 0
  IsCoherent u =
      (t : ℕ) (url text : Bytes)
      → ca.get t url u.cache ≡ some text
      → (m : TracingMode) × (lookup_tracing_mode u.filters url ≡ some m) × (text ≡ to_string m)

  -- The answer is that of the filters, and a cache that answers the same is left; or both panic.
  pub data Answers (url : Bytes) (u : UrlFilters R C)
      : Option (TracingMode × UrlFilters R C) → Type 0 where
    panics : plain_mode url u.filters ≡ none → Answers url u none
    answers :
        (m : TracingMode) (v : UrlFilters R C)
        → plain_mode url u.filters ≡ some m
        → IsCoherent v
        → v.filters ≡ u.filters
        → Answers url u (some (m, v))

  module _ (laws : CacheLaws C) where
    pub reload-IsCoherent :
        (fs : List TransactionFilter) (u : UrlFilters R C) → IsCoherent (reload_urls_config fs u)
    unfolding reload_urls_config
    reload-IsCoherent fs u t url text h = ground (arith, laws.get-clear t url u.cache)

    set-IsCoherent :
        (now : ℕ) (url : Bytes) (m : TracingMode) (u : UrlFilters R C)
        → lookup_tracing_mode u.filters url ≡ some m
        → IsCoherent u
        → IsCoherent (set_url_trace now url m u)
    unfolding set_url_trace
    set-IsCoherent now url m u found co t j text h =
        elim (laws.get-set t now cache_expire_seconds j url (to_string m) text u.cache h) [
          | inl (same, e) ↦ (m, ap (lookup_tracing_mode u.filters) same ∙ found, e)
          | inr old ↦ co t j text old
        ]

    answer_uncached :
        (now : ℕ) (url : Bytes) (u : UrlFilters R C)
        → IsCoherent u
        → (get_url_trace now url u ≡ none)
          ⊎ ((m : TracingMode) × (get_url_trace now url u ≡ some m)
              × (lookup_tracing_mode u.filters url ≡ some m))
    unfolding get_url_trace
    answer_uncached now url u co = elim (Option-cases (ca.get now url u.cache)) [
      | inl miss ↦ inl (rw miss)
      | inr (text, hit) ↦
          let (m, found, e) = co now url text hit in
          inr (m, rw (hit, e, new_tracing_mode-to_string m), found)
    ]

    lookup_and_store :
        (now : ℕ) (url : Bytes) (u : UrlFilters R C) (found : Option TracingMode)
        → IsCoherent u
        → lookup_tracing_mode u.filters url ≡ found
        → is_empty url ≡ false
        → Answers url u (found >>= λ m. some (m, set_url_trace now url m u))
    unfolding plain_mode set_url_trace
    lookup_and_store now url u none co e text = panics (ground arith)
    lookup_and_store now url u (some m) co e text =
        answers m _ (ground arith) (set-IsCoherent now url m u e co) refl

    skipped :
        (url : Bytes) (u : UrlFilters R C)
        → (no_filters u || is_empty url) ≡ true
        → plain_mode url u.filters ≡ some trace_unknown
    unfolding plain_mode lookup_tracing_mode
    skipped url u h = ground arith

    get-Answers :
        (now : ℕ) (url : Bytes) (u : UrlFilters R C)
        → IsCoherent u
        → Answers url u (get_tracing_mode now url u)
    unfolding get_tracing_mode
    get-Answers now url u co = elim (Bool-cases (no_filters u || is_empty url)) [
      | inl skip ↦
          rw (skip, get_tracing_mode) (answers trace_unknown u (skipped url u skip) co refl)
      | inr go ↦
          let text : is_empty url ≡ false = ground arith in
          elim (answer_uncached now url u co) [
            | inl miss ↦
                rw (go, miss, get_tracing_mode)
                  (lookup_and_store now url u (lookup_tracing_mode u.filters url) co refl text)
            | inr (m, hit, found) ↦
                rw (go, hit, get_tracing_mode)
                  (answers m u (unfold plain_mode in ground arith) co refl)
          ]
    ]

-- What the program does with the filters: it asks for a URL's mode, and it loads a configuration.
pub data UrlCall : Type 0 where
  asks : ℕ → Bytes → UrlCall
  reloads : List TransactionFilter → UrlCall

module _ {R : Type 0} ⦃rx : Regexps R⦄ where
  -- The answers of a history with no cache; `none` if a lookup panics.
  unfoldable pub plain_run : List UrlCall → List (UrlFilter R) → Option (List TracingMode)
  plain_run [] fs = some []
  plain_run (asks now url ∷ cs) fs = do m ← plain_mode url fs; ms ← plain_run cs fs; some (m ∷ ms)
  plain_run (reloads gs ∷ cs) fs = plain_run cs (load_filters gs)

module _ {R C : Type 0} ⦃rx : Regexps R⦄ ⦃ca : Cache C⦄ where
  pub run : List UrlCall → UrlFilters R C → Option (List TracingMode)
  run [] u = some []
  run (asks now url ∷ cs) u = do (m, v) ← get_tracing_mode now url u; ms ← run cs v; some (m ∷ ms)
  run (reloads gs ∷ cs) u = run cs (reload_urls_config gs u)

  module _ (laws : CacheLaws C) where
    asked :
        (now : ℕ) (url : Bytes) (cs : List UrlCall) (u : UrlFilters R C)
        → (o : Option (TracingMode × UrlFilters R C)) → Answers url u o
        → ((v : UrlFilters R C) → IsCoherent v → run cs v ≡ plain_run cs v.filters)
        → (o >>= λ (m, v). run cs v >>= λ ms. some (m ∷ ms))
          ≡ (plain_mode url u.filters >>= λ m. plain_run cs u.filters >>= λ ms. some (m ∷ ms))
    asked now url cs u none (panics e) ih = rw e
    asked now url cs u (some (m, v)) (answers _ _ e co same) ih = rw (e, ih v co, same)

    -- In every history of lookups and reloads from filters whose cache is coherent, whatever the cache
    -- evicts, each answer is that of the filters loaded last, and a lookup panics exactly when they do.
    pub run_transparent :
        (cs : List UrlCall) (u : UrlFilters R C) → IsCoherent u → run cs u ≡ plain_run cs u.filters
    unfolding run plain_run
    run_transparent [] u co = refl
    run_transparent (asks now url ∷ cs) u co =
        asked now url cs u _ (get-Answers laws now url u co) (run_transparent cs)
    run_transparent (reloads gs ∷ cs) u co =
        run_transparent cs (reload_urls_config gs u) (reload-IsCoherent laws gs u)
        ∙ (unfold reload_urls_config in refl)
