-- ===== src/Config/Delta/Masked.antt =====
-- What the log shows of the service key.
use apm_go.Prelude.{
  Bool, false, ◌-◌, ◌<◌, Lacks, length, take, drop, List, [], ◌∷◌, ◌++◌, Option, none, some, ◌≡◌,
  refl, arith, Bytes, codes, bytes_eq, if◌then◌else◌,
}
use apm_go.Float.{Float64}
use apm_go.Config.{SamplingConfig, mask_service_key, stars}
use apm_go.Config.Keys.{mask_service_key_lem}
use apm_go.Config.Delta.{
  UrlParser, DeltaItem, delta_item, text_delta, int_delta, bool_delta, float_delta, filters_delta,
  sampling_delta, reporter_delta, config_delta, sanitize, sanitize_item, get_delta,
}
use apm_go.Config.Fields.{Config, ReporterOptions, new_config, reset}
use apm_go.Config.Values.{FloatText}

-- The values that are shown for a field.
unfoldable pub shown : Bytes → List DeltaItem → List Bytes
unfolding bytes_eq
shown key [] = []
shown key (i ∷ delta) = if bytes_eq i.key key then i.value ∷ shown key delta else shown key delta

shown-append :
    (key : Bytes) (xs ys : List DeltaItem) → shown key (xs ++ ys) ≡ shown key xs ++ shown key ys
unfolding shown
shown-append key [] ys = refl
shown-append key (i ∷ xs) ys = ground (arith, shown-append key xs ys)

shown-delta_item :
    (key name env value base : Bytes) (equal : Bool)
    → shown key (delta_item name env equal value base)
      ≡ (if bytes_eq name key then (if equal then [] else value ∷ []) else [])
unfolding shown delta_item
shown-delta_item key name env value base equal = ground arith

append_nil : (xs : List Bytes) → xs ++ [] ≡ xs
append_nil [] = refl
append_nil (x ∷ xs) = ground (arith, append_nil xs)

shown_nil : (key : Bytes) → shown key [] ≡ []
unfolding shown
shown_nil key = refl

shown-reporter_delta :
    (base changed : Option ReporterOptions)
    → shown (codes "ServiceKey") (reporter_delta base changed) ≡ []
unfolding reporter_delta int_delta bytes_eq
shown-reporter_delta none changed = shown_nil _
shown-reporter_delta (some base) none = shown_nil _
shown-reporter_delta (some base) (some changed) = simp (shown-append, shown-delta_item)

shown-sampling_delta :
    (base changed : Option SamplingConfig)
    → shown (codes "ServiceKey") (sampling_delta base changed) ≡ []
unfolding sampling_delta text_delta int_delta bytes_eq
shown-sampling_delta none changed = shown_nil _
shown-sampling_delta (some base) none = shown_nil _
shown-sampling_delta (some base) (some changed) = simp (shown-append, shown-delta_item)

masked : List Bytes → List Bytes
masked [] = []
masked (v ∷ vs) = mask_service_key v ∷ masked vs

shown-sanitize :
    ⦃up : UrlParser⦄ (delta : List DeltaItem)
    → shown (codes "ServiceKey") (sanitize delta) ≡ masked (shown (codes "ServiceKey") delta)
unfolding shown sanitize masked
shown-sanitize [] = refl
shown-sanitize (i ∷ delta) = ground (arith, shown-sanitize delta)

sanitize-append :
    ⦃up : UrlParser⦄ (xs ys : List DeltaItem) → sanitize (xs ++ ys) ≡ sanitize xs ++ sanitize ys
unfolding sanitize
sanitize-append [] ys = refl
sanitize-append (i ∷ xs) ys = ground (arith, sanitize-append xs ys)

-- The item of a service key that is not the default.
sanitize-key_item :
    ⦃up : UrlParser⦄ (base key : Bytes)
    → bytes_eq base key ≡ false
    → sanitize (text_delta (codes "ServiceKey") (codes "SW_APM_SERVICE_KEY") base key)
      ≡ record {
        key = codes "ServiceKey";
        env = codes "SW_APM_SERVICE_KEY";
        value = mask_service_key key;
        default_val = base;
      }
        ∷ []
unfolding sanitize sanitize_item text_delta delta_item bytes_eq
sanitize-key_item base key differs = ground arith

default_service_key :
    (F : Type 0) ⦃ft : FloatText F⦄ → (reset (new_config {F = F})).service_key ≡ []
unfolding reset
default_service_key F = refl

key-not_empty : (token name : Bytes) → bytes_eq [] (token ++ b':' ∷ name) ≡ false
unfolding bytes_eq
key-not_empty [] name = refl
key-not_empty (t ∷ token) name = refl

module _ {F : Type 0} ⦃fl : Float64 F⦄ ⦃ft : FloatText F⦄ where
  shown-config_delta :
      (base changed : Config F)
      → shown (codes "ServiceKey") (config_delta base changed)
        ≡ (if bytes_eq base.service_key changed.service_key then [] else changed.service_key ∷ [])
  unfolding config_delta text_delta int_delta bool_delta float_delta filters_delta bytes_eq
  shown-config_delta base changed =
      simp (shown-append, shown-delta_item, shown-reporter_delta, shown-sampling_delta, append_nil)

  shown-get_delta :
      ⦃up : UrlParser⦄ (c : Config F)
      → shown (codes "ServiceKey") (get_delta c)
        ≡ (if bytes_eq [] c.service_key then [] else mask_service_key c.service_key ∷ [])
  unfolding get_delta masked
  shown-get_delta c =
      rw
        (
          shown-sanitize (config_delta (reset new_config) c),
          shown-config_delta (reset new_config) c,
          default_service_key F,
        )
        (ground arith)

  same_log :
      ⦃up : UrlParser⦄ (base c : Config F) (k l : Bytes)
      → sanitize (text_delta (codes "ServiceKey") (codes "SW_APM_SERVICE_KEY") base.service_key k)
        ≡ sanitize (text_delta (codes "ServiceKey") (codes "SW_APM_SERVICE_KEY") base.service_key l)
      → sanitize (config_delta base (record c { service_key = k }))
        ≡ sanitize (config_delta base (record c { service_key = l }))
  unfolding config_delta
  same_log base c k l e = simp (sanitize-append, e)

  -- Whatever else the configuration holds: of a service key whose token has more than eight bytes and no colon, and whose name has no colon, what
  -- is logged of that field is one value, the first four and the last four bytes of the token, stars for the others, and
  -- the name. The whole log, of all fields, is the same for any other token without colons, of that length and with these ends.
  pub service_key-get_delta :
      ⦃up : UrlParser⦄ (c : Config F) (token other name : Bytes)
      → Lacks b':' token
      → Lacks b':' other
      → Lacks b':' name
      → 8 < length token
      → length other ≡ length token
      → take 4 other ≡ take 4 token
      → drop (length token - 4) other ≡ drop (length token - 4) token
      → let log = get_delta (record c { service_key = token ++ b':' ∷ name }) in
        (shown (codes "ServiceKey") log
          ≡ (take 4 token
              ++ stars (length token - 8)
              ++ drop (length token - 4) token
              ++ codes ":"
              ++ name)
            ∷ [])
        × (log ≡ get_delta (record c { service_key = other ++ b':' ∷ name }))
  service_key-get_delta c token other name ht ho hn long same front back = (
    rw
        (
          shown-get_delta (record c { service_key = token ++ b':' ∷ name }),
          key-not_empty token name,
          mask_service_key_lem token name ht hn long,
        )
        refl,
    unfold get_delta in
        same_log (reset new_config) c (token ++ b':' ∷ name) (other ++ b':' ∷ name) (
          rw
            (
              default_service_key F,
              sanitize-key_item [] (token ++ b':' ∷ name) (key-not_empty token name),
              sanitize-key_item [] (other ++ b':' ∷ name) (key-not_empty other name),
              mask_service_key_lem token name ht hn long,
              mask_service_key_lem other name ho hn (omega (arith, same)),
              same,
              front,
              back,
            )
            refl),
  )
