-- ===== src/Oboe/Urls.antt =====
-- internal/oboe/url.go: the tracing mode of a URL, by filters behind a cache. The regular
-- expressions (package regexp) and the cache (freecache) are interfaces.
pub mod Lookup
pub mod Coherence
use apm_go.Prelude.{
  ℕ, Bool, true, false, List, [], ◌∷◌, Option, none, some, Bytes, bytes_eq, is_empty, reverse, ◌==◌,
  ◌||◌, ◌++◌, ◌>>=◌, ◌≡◌, ◌⊎◌, if◌then◌else◌,
}
use apm_go.Oboe.Flags.{TracingMode, trace_unknown, new_tracing_mode, to_string}

-- `none` for a pattern that does not compile.
pub record Regexps (R : Type 0) : Type 0 where
  pub compile : Bytes → Option R
  pub matches : R → Bytes → Bool

-- A lookup names the time, and fails on an entry that expired or was evicted.
pub record Cache (C : Type 0) : Type 0 where
  pub empty : C
  pub get : ℕ → Bytes → C → Option Bytes
  -- the time, the key, the value and the seconds to keep it
  pub set : ℕ → Bytes → Bytes → ℕ → C → C
  pub clear : C → C

-- A cache answers with what was stored last under the key, if it answers.
pub record CacheLaws (C : Type 0) ⦃ca : Cache C⦄ : Type 0 where
  pub get-empty : (t : ℕ) (k : Bytes) → ca.get t k ca.empty ≡ none
  pub get-clear : (t : ℕ) (k : Bytes) (c : C) → ca.get t k (ca.clear c) ≡ none
  pub get-set :
      (t now n : ℕ) (j k v w : Bytes) (c : C)
      → ca.get t j (ca.set now k v n c) ≡ some w
      → ((j ≡ k) × (w ≡ v)) ⊎ (ca.get t j c ≡ some w)

-- config.TransactionFilter
pub record TransactionFilter : Type 0 where
  pub filter_type : Bytes
  pub regex : Bytes
  pub extensions : List Bytes
  pub tracing : Bytes

-- `nil_regex_filter` is a nil *regexFilter in the list: calling it panics.
pub data UrlFilter (R : Type 0) : Type 0 where
  regex_filter : R → TracingMode → UrlFilter R
  nil_regex_filter : UrlFilter R
  extension_filter : List Bytes → TracingMode → UrlFilter R

unfoldable pub has_ext : List Bytes → Bytes → Bool
has_ext [] ext = false
has_ext (e ∷ exts) ext = bytes_eq e ext || has_ext exts ext

-- filepath.Ext, on the reversed path: from the last dot on, if no slash is behind it.
unfoldable pub ext_from : Bytes → Bytes → Bytes
ext_from [] suffix = []
ext_from (c ∷ path) suffix =
    if c == b'/' then [] else if c == b'.' then c ∷ suffix else ext_from path (c ∷ suffix)

-- strings.TrimLeft(s, ".")
unfoldable pub trim_dots : Bytes → Bytes
trim_dots [] = []
trim_dots (c ∷ s) = if c == b'.' then trim_dots s else c ∷ s

unfoldable pub url_ext : Bytes → Bytes
unfolding ext_from trim_dots
url_ext url = trim_dots (ext_from (reverse url) [])

abbrev pub cache_expire_seconds : ℕ
cache_expire_seconds = 600

pub record UrlFilters (R C : Type 0) : Type 0 where
  pub cache : C
  pub filters : List (UrlFilter R)

module _ {R : Type 0} ⦃rx : Regexps R⦄ where
  -- A panic is `none`.
  unfoldable pub match : UrlFilter R → Bytes → Option Bool
  match (regex_filter r trace) url = some (rx.matches r url)
  match nil_regex_filter url = none
  match (extension_filter exts trace) url = some (has_ext exts (url_ext url))

  unfoldable pub filter_mode : UrlFilter R → Option TracingMode
  filter_mode (regex_filter r trace) = some trace
  filter_mode nil_regex_filter = none
  filter_mode (extension_filter exts trace) = some trace

  -- A pattern that does not compile leaves a nil filter in the list.
  unfoldable pub load_filter : TransactionFilter → UrlFilter R
  load_filter f =
      if is_empty f.regex
      then extension_filter f.extensions (new_tracing_mode f.tracing)
      else elim (rx.compile f.regex) [
        | none ↦ nil_regex_filter
        | some r ↦ regex_filter r (new_tracing_mode f.tracing)
      ]

  unfoldable pub load_filters : List TransactionFilter → List (UrlFilter R)
  load_filters [] = []
  load_filters (f ∷ fs) = load_filter f ∷ load_filters fs

  unfoldable pub lookup_tracing_mode : List (UrlFilter R) → Bytes → Option TracingMode
  lookup_tracing_mode [] url = some trace_unknown
  lookup_tracing_mode (f ∷ fs) url = do
    hit ← match f url
    if hit then filter_mode f else lookup_tracing_mode fs url

module _ {R C : Type 0} ⦃rx : Regexps R⦄ ⦃ca : Cache C⦄ where
  unfoldable pub new_url_filters : UrlFilters R C
  new_url_filters = record { cache = ca.empty; filters = [] }

  unfoldable pub load_config : List TransactionFilter → UrlFilters R C → UrlFilters R C
  unfolding load_filters
  load_config fs u = record u { filters = load_filters fs }

  unfoldable pub reload_urls_config : List TransactionFilter → UrlFilters R C → UrlFilters R C
  unfolding load_config
  reload_urls_config fs u = let v = load_config fs u in record v { cache = ca.clear v.cache }

  unfoldable pub set_url_trace : ℕ → Bytes → TracingMode → UrlFilters R C → UrlFilters R C
  set_url_trace now url trace u = record u {
    cache = ca.set now url (to_string trace) cache_expire_seconds u.cache;
  }

  unfoldable pub get_url_trace : ℕ → Bytes → UrlFilters R C → Option TracingMode
  get_url_trace now url u = do trace ← ca.get now url u.cache; some (new_tracing_mode trace)

  abbrev pub no_filters : UrlFilters R C → Bool
  no_filters u = elim u.filters [ [] ↦ true | f ∷ fs ↦ false ]

  -- The mode, and the filters with their cache afterwards; `none` is a panic.
  unfoldable pub get_tracing_mode :
      ℕ → Bytes → UrlFilters R C → Option (TracingMode × UrlFilters R C)
  unfolding get_url_trace set_url_trace
  get_tracing_mode now url u =
      if no_filters u || is_empty url
      then some (trace_unknown, u)
      else elim (get_url_trace now url u) [
        | some trace ↦ some (trace, u)
        | none ↦ do
          trace ← lookup_tracing_mode u.filters url
          some (trace, set_url_trace now url trace u)
      ]
