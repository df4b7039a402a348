-- ===== src/Tests/Settings.antt =====
-- Settings of the server, of the configuration and of a URL.
use apm_go.Prelude.{
  ℕ, true, false, List, [], ◌∷◌, some, ◌≡◌, refl, arith, Bytes, codes, bytes_eq, starts_with,
}
use apm_go.Prelude.Int.{ℤ}
use apm_go.Float.Exact.{exact}
use apm_go.Oboe.Flags.{has, is_unknown, trigger_trace, new_tracing_mode, to_flags, trace_enabled}
use apm_go.Oboe.Settings.{has_override_flag, merge_local_setting, merge_url_setting}
use apm_go.Oboe.Settings.Merge.{has-merge_local_setting, has-merge_url_setting}
use apm_go.Oboe.TriggerTrace.{SampleSource, source_file}
use apm_go.Oboe.Urls.{
  TransactionFilter, UrlFilters, load_filters, lookup_tracing_mode, get_tracing_mode, set_url_trace,
  get_url_trace, has_ext, url_ext, match, filter_mode, load_filter, regex_filter,
}
use apm_go.Oboe.Urls.Coherence.{UrlCall, asks, reloads, plain_run, run, run_transparent, plain_mode}
use apm_go.Tests.Fixtures.{Pairs, prefixes, keep_all, keep_all-CacheLaws}
use apm_go.Tests.Requests.{local_config, open_settings}

has-merge_local_setting_example :
    has (merge_local_setting local_config open_settings).flags trigger_trace ≡ false
unfolding has to_flags new_tracing_mode has_override_flag bytes_eq
has-merge_local_setting_example =
    has-merge_local_setting local_config open_settings (omega arith) trigger_trace

abbrev filter_of : Bytes → Bytes → TransactionFilter
filter_of regex tracing = record {
  filter_type = codes "url";
  regex = regex;
  extensions = codes "png" ∷ [];
  tracing = tracing;
}

abbrev pub off_api : TransactionFilter
off_api = filter_of (codes "/api") (codes "disabled")

abbrev pub on_images : TransactionFilter
on_images = filter_of [] (codes "enabled")

abbrev bad_filter : TransactionFilter
bad_filter = filter_of (codes "[") (codes "disabled")

abbrev pub image_url : Bytes
image_url = codes "/a.png"

abbrev url_calls : List UrlCall
url_calls = reloads (on_images ∷ []) ∷ asks 1 image_url ∷ asks 2 image_url ∷ []

abbrev no_urls : UrlFilters Bytes Pairs
no_urls = record { cache = []; filters = [] }

run_transparent_example : run url_calls no_urls ≡ some (trace_enabled ∷ trace_enabled ∷ [])
unfolding plain_run plain_mode load_filters load_filter lookup_tracing_mode match filter_mode
    has_ext url_ext new_tracing_mode bytes_eq
run_transparent_example = run_transparent keep_all-CacheLaws url_calls no_urls (λ t url text e. cc)

abbrev image_filters : UrlFilters Bytes Pairs
image_filters = record { cache = []; filters = regex_filter (codes "/a") trace_enabled ∷ [] }

image_mode :
    get_tracing_mode 1 image_url image_filters
    ≡ some (trace_enabled, set_url_trace 1 image_url trace_enabled image_filters)
unfolding get_tracing_mode get_url_trace lookup_tracing_mode match filter_mode starts_with
image_mode = refl

has-merge_url_setting_example :
    let s = merge_local_setting local_config open_settings in
    (rate : ℤ) × (flags : ℕ) × (source : SampleSource) × (merge_url_setting 1 image_url s
        image_filters
      ≡ some ((rate, flags, source), set_url_trace 1 image_url trace_enabled image_filters))
    × (rate ≡ s.value)
    × (source ≡ source_file)
    × (has flags trigger_trace ≡ true)
unfolding has_override_flag has is_unknown
has-merge_url_setting_example =
    has-merge_url_setting 1 image_url local_config open_settings image_filters
      (set_url_trace 1 image_url trace_enabled image_filters) trace_enabled trigger_trace refl
      image_mode (omega arith)
