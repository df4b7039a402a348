-- ===== src/Txn.antt =====
-- internal/txn/txn.go: the transaction's name. What the configuration and the environment hold is an argument, and
-- text is ASCII.
pub mod Name
use apm_go.Prelude.{
  ℕ, ◌-◌, Bool, true, false, not, ◌&&◌, ◌||◌, List, [], ◌∷◌, ◌++◌, Bytes, codes, bytes_eq, is_empty,
  trim_space, ◌==◌, ltb, length, take, if◌then◌else◌,
}
use apm_go.EntrySpans.{Span, Manager, entry_name}

-- The four keys of the package semconv.
pub record Semconv : Type 0 where
  pub faas_name_key : Bytes
  pub http_route_key : Bytes
  pub url_path_key : Bytes
  pub http_target_key : Bytes

-- The variables of the loop over the attributes.
pub record Names : Type 0 where
  pub faas_name : Bytes
  pub http_route : Bytes
  pub url_path : Bytes

-- urlPath up to the first byte that IndexAny finds for "?#".
unfoldable pub drop_query : Bytes → Bytes
drop_query [] = []
drop_query (c ∷ s) = let rest = drop_query s in if c == b'?' || c == b'#' then [] else c ∷ rest

-- strings.SplitN at a one-byte separator, with at most that many cuts; the first part apart.
unfoldable pub split_n : ℕ → ℕ → Bytes → Bytes × List Bytes
split_n cuts sep [] = ([], [])
split_n cuts sep (c ∷ s) =
    let here = c == sep && ltb 0 cuts in
    let (p, ps) = split_n (if here then cuts - 1 else cuts) sep s in
    if here then ([], p ∷ ps) else (c ∷ p, ps)

unfoldable pub extract_name : Bytes → Bytes
unfolding split_n drop_query
extract_name url_path =
    let path = drop_query url_path in
    let (_, more) = split_n 3 b'/' path in
    elim more [ [] ↦ path | a ∷ [] ↦ b'/' ∷ a | a ∷ b ∷ _ ↦ b'/' ∷ a ++ b'/' ∷ b ]

module _ ⦃keys : Semconv⦄ where
  unfoldable pub read_attribute : Bytes → Bytes → Names → Names
  read_attribute k v n =
      if bytes_eq k keys.faas_name_key
      then record n { faas_name = v }
      else if bytes_eq k keys.http_route_key
      then record n { http_route = v }
      else if bytes_eq k keys.url_path_key
      then record n { url_path = v }
      else if bytes_eq k keys.http_target_key
      then record n { url_path = v }
      else n

  unfoldable pub read_attributes : List (Bytes × Bytes) → Names → Names
  unfolding read_attribute
  read_attributes [] n = n
  read_attributes ((k, v) ∷ attrs) n = read_attributes attrs (read_attribute k v n)

  unfoldable pub derived_name : List (Bytes × Bytes) → Bytes
  unfolding read_attributes extract_name
  derived_name attrs =
      let n = read_attributes attrs (record { faas_name = []; http_route = []; url_path = [] }) in
      if not (is_empty n.faas_name)
      then n.faas_name
      else if not (is_empty n.http_route)
      then n.http_route
      else if not (is_empty n.url_path)
      then extract_name n.url_path
      else []

  -- deriveTransactionName, of the configured name and AWS_LAMBDA_FUNCTION_NAME.
  unfoldable pub derive_name : Bytes → Bytes → Bytes → List (Bytes × Bytes) → Bytes
  unfolding derived_name
  derive_name conf env span_name attrs =
      let a = if is_empty conf then (if not (is_empty env) then env else conf) else conf in
      let b = if is_empty a then derived_name attrs else a in
      let c = if is_empty b then span_name else b in
      let d = trim_space c in
      let e = if is_empty d then codes "unknown" else d in
      if ltb 255 (length e) then take 255 e else e

  -- GetTransactionName
  unfoldable pub transaction_name : {T : Type 0} → Bytes → Bytes → Manager → Span T → Bytes
  unfolding derive_name entry_name
  transaction_name conf env m span =
      let custom = entry_name span.context.trace_id m in
      if not (is_empty custom) then custom else derive_name conf env span.name span.attributes
