-- ===== src/Txn/Name.antt =====
-- Which name a transaction gets, and its bounds.
use apm_go.Prelude.{
  ℕ, suc, ◌≤◌, Bool, true, not, ◌&&◌, ◌||◌, List, [], ◌∷◌, ◌++◌, Option, none, some, ◌≡◌, refl, ap,
  ◌∙◌, arith, Bytes, codes, bytes_eq, is_empty, trim_space, ◌==◌, ltb, length, take, take_all,
  length-take, if◌then◌else◌, Lacks, append-nil,
}
use apm_go.Txn.{
  Semconv, Names, drop_query, split_n, extract_name, read_attribute, read_attributes, derived_name,
  derive_name,
}

-- The value of the last attribute whose key passes the test.
abbrev last_of : (Bytes → Bool) → List (Bytes × Bytes) → Option Bytes
last_of p [] = none
last_of p ((k, v) ∷ attrs) =
    let later = last_of p attrs in
    elim later [ some w ↦ some w | none ↦ if p k then some v else none ]

abbrev or_else : Option Bytes → Bytes → Bytes
or_else none d = d
or_else (some v) d = v

-- The first text of a list that is not empty.
abbrev first_text : List Bytes → Bytes
first_text [] = []
first_text (s ∷ ss) = let rest = first_text ss in if is_empty s then rest else s

abbrev or_unknown : Bytes → Bytes
or_unknown s = if is_empty s then codes "unknown" else s

clip : (n : ℕ) (s : Bytes) → (if ltb n (length s) then take n s else s) ≡ take n s
clip n s = ground (arith, take_all n s)

or_unknown_bounds :
    (s : Bytes) → (1 ≤ length (take 255 (or_unknown s))) × (length (take 255 (or_unknown s)) ≤ 255)
or_unknown_bounds [] = (omega arith, omega arith)
or_unknown_bounds (c ∷ s) = (omega arith, omega (arith, length-take 255 (c ∷ s)))

module _ ⦃keys : Semconv⦄ where
  abbrev is_faas : Bytes → Bool
  is_faas k = bytes_eq k keys.faas_name_key

  abbrev is_route : Bytes → Bool
  is_route k = not (is_faas k) && bytes_eq k keys.http_route_key

  abbrev is_path : Bytes → Bool
  is_path k =
      not (is_faas k)
      && not (bytes_eq k keys.http_route_key)
      && (bytes_eq k keys.url_path_key || bytes_eq k keys.http_target_key)

  read_attributes_lem :
      (attrs : List (Bytes × Bytes)) (n : Names)
      → ((read_attributes attrs n).faas_name ≡ or_else (last_of is_faas attrs) n.faas_name)
        × ((read_attributes attrs n).http_route ≡ or_else (last_of is_route attrs) n.http_route)
        × ((read_attributes attrs n).url_path ≡ or_else (last_of is_path attrs) n.url_path)
  unfolding read_attributes read_attribute
  read_attributes_lem [] n = (refl, refl, refl)
  read_attributes_lem ((k, v) ∷ attrs) n =
      let l = read_attributes_lem attrs (read_attribute k v n) in
      (ground (arith, l.0), ground (arith, l.1), ground (arith, l.2))

  extract-nil : extract_name [] ≡ []
  unfolding extract_name drop_query split_n
  extract-nil = refl

  -- The derived name is the first text that is not empty among: the configured name, AWS_LAMBDA_FUNCTION_NAME, the last
  -- faas.name, the last http.route, the path cut from the last url.path or http.target, and the span's name;
  -- without its outer spaces, or `unknown` if nothing is left, and cut at 255 bytes.
  pub derive_name_lem :
      (conf env span_name : Bytes) (attrs : List (Bytes × Bytes))
      → derive_name conf env span_name attrs
        ≡ take 255 (
            or_unknown (
              trim_space (
                first_text (
                  conf
                  ∷ env
                  ∷ or_else (last_of is_faas attrs) []
                  ∷ or_else (last_of is_route attrs) []
                  ∷ extract_name (or_else (last_of is_path attrs) [])
                  ∷ span_name
                  ∷ []))))
  unfolding derive_name derived_name
  derive_name_lem conf env span_name attrs =
      let empty_names : Names = record { faas_name = []; http_route = []; url_path = [] } in
      let l = read_attributes_lem attrs empty_names in
      clip 255 _ ∙ ap (λ s. take 255 (or_unknown (trim_space s))) (ground (arith, l, extract-nil))

  -- A transaction's derived name has from 1 to 255 bytes.
  pub derive_name_bounds :
      (conf env span_name : Bytes) (attrs : List (Bytes × Bytes))
      → (1 ≤ length (derive_name conf env span_name attrs))
        × (length (derive_name conf env span_name attrs) ≤ 255)
  derive_name_bounds conf env span_name attrs =
      rw (derive_name_lem conf env span_name attrs) (or_unknown_bounds _)

drop_query-append :
    (s t : Bytes) → Lacks b'?' s → Lacks b'#' s → drop_query (s ++ t) ≡ s ++ drop_query t
unfolding drop_query
drop_query-append [] t q h = refl
drop_query-append (c ∷ s) t q h = ground (arith, drop_query-append s t q.1 h.1)

split_n_one : (cuts sep : ℕ) (s : Bytes) → Lacks sep s → split_n cuts sep s ≡ (s, [])
unfolding split_n
split_n_one cuts sep [] h = refl
split_n_one cuts sep (c ∷ s) h = ground (arith, split_n_one cuts sep s h.1)

split_n_more :
    (cuts sep : ℕ) (s t : Bytes)
    → Lacks sep s
    → split_n (suc cuts) sep (s ++ sep ∷ t) ≡ (s, (split_n cuts sep t).0 ∷ (split_n cuts sep t).1)
unfolding split_n
split_n_more cuts sep [] t h = ground arith
split_n_more cuts sep (c ∷ s) t h = ground (arith, split_n_more cuts sep s t h.1)

-- Where a path's second segment ends: the path's end, a slash, or the query or the fragment.
abbrev ends_segment : Bytes → Bool
ends_segment [] = true
ends_segment (c ∷ s) = c == b'/' || c == b'?' || c == b'#'

abbrev pub IsSegment : Bytes → Type 0
IsSegment s = Lacks b'/' s × Lacks b'?' s × Lacks b'#' s

second_segment :
    (b tail : Bytes)
    → Lacks b'/' b
    → ends_segment tail ≡ true
    → (split_n 1 b'/' (b ++ drop_query tail)).0 ≡ b
unfolding split_n drop_query
second_segment [] [] h e = refl
second_segment [] (c ∷ s) h e = ground arith
second_segment (c ∷ b) tail h e = ground (arith, second_segment b tail h.1 e)

dropped_path :
    (a b tail : Bytes)
    → IsSegment a
    → IsSegment b
    → drop_query (a ++ b'/' ∷ (b ++ tail)) ≡ a ++ b'/' ∷ (b ++ drop_query tail)
unfolding drop_query
dropped_path a b tail (_, qa, fa) (_, qb, fb) =
    rw (drop_query-append a _ qa fa, drop_query-append b tail qb fb) refl

dropped_segment : (a : Bytes) → IsSegment a → drop_query a ≡ a
unfolding drop_query
dropped_segment [] h = refl
dropped_segment (c ∷ a) (_, q, f) =
    ground (arith, drop_query-append (c ∷ a) [] q f, append-nil (c ∷ a))

-- A path's name is its first two segments, whatever stands behind the second, or its one segment.
pub extract_name_lem :
    (a b tail : Bytes)
    → IsSegment a
    → IsSegment b
    → ends_segment tail ≡ true
    → (extract_name (b'/' ∷ a ++ b'/' ∷ (b ++ tail)) ≡ b'/' ∷ a ++ b'/' ∷ b)
      × (extract_name (b'/' ∷ a) ≡ b'/' ∷ a)
unfolding extract_name
extract_name_lem a b tail ha hb e =
    let more = split_n_more 1 b'/' a (b ++ drop_query tail) ha.0 in
    (
      ground (arith, dropped_path a b tail ha hb, more, second_segment b tail hb.0 e),
      ground (arith, dropped_segment a ha, split_n_one 2 b'/' a ha.0),
    )
