-- ===== src/Host.antt =====
-- internal/host/k8s/k8s.go, internal/host/k8s/detector.go and internal/uams/uams.go: where the agent runs. Files, the environment
-- and the results of the resource detector are arguments; text is ASCII.
pub mod PodUid
pub mod Sources
pub mod Uams
use apm_go.Prelude.{
  ℕ, zero, suc, ◌+◌, Bool, true, false, not, ◌&&◌, ◌||◌, List, [], ◌∷◌, ◌++◌, Option, none, some,
  Bytes, codes, is_empty, bytes_eq, ◌==◌, leb, take, length, if◌then◌else◌, ◌>>=◌,
}
use apm_go.Prelude.Find.{contains}

-- `[[:xdigit:]]`
unfoldable pub is_xdigit : ℕ → Bool
is_xdigit c = (leb b'0' c && leb c b'9') || (leb b'A' c && leb c b'F') || (leb b'a' c && leb c b'f')

-- uuidRegex, `[[:xdigit:]]{8}-([[:xdigit:]]{4}-){3}[[:xdigit:]]{12}`, of which every match has 36 bytes: `true` for a
-- digit, `false` for a dash.
abbrev pub xdigits : ℕ → List Bool
xdigits zero = []
xdigits (suc n) = true ∷ xdigits n

abbrev pub uuid_shape : List Bool
uuid_shape =
    xdigits 8
    ++ (false ∷ xdigits 4)
    ++ (false ∷ xdigits 4)
    ++ (false ∷ xdigits 4)
    ++ (false ∷ xdigits 12)

unfoldable pub has_shape : List Bool → Bytes → Bool
unfolding is_xdigit
has_shape [] s = true
has_shape (b ∷ bs) [] = false
has_shape (b ∷ bs) (c ∷ s) = (if b then is_xdigit c else c == b'-') && has_shape bs s

-- FindString: the leftmost match, or no bytes.
unfoldable pub find_uuid : Bytes → Bytes
unfolding has_shape
find_uuid [] = []
find_uuid (c ∷ s) = if has_shape uuid_shape (c ∷ s) then take 36 (c ∷ s) else find_uuid s

-- getPodUidFromProc, of the lines of the file; `none` for its error.
unfoldable pub pod_uid_of_lines : List Bytes → Option Bytes
unfolding find_uuid
pod_uid_of_lines [] = none
pod_uid_of_lines (line ∷ lines) =
    let rest = pod_uid_of_lines lines in
    let found = find_uuid line in
    if not (contains (codes "kube") line)
    then rest
    else if not (is_empty found)
    then some found
    else rest

unfoldable pub get_pod_uid_from_proc : Option (List Bytes) → Option Bytes
unfolding pod_uid_of_lines
get_pod_uid_from_proc file = do lines ← file; pod_uid_of_lines lines

-- What is asked of the system: the attributes of the detector (`none` if it failed), the environment, and the files.
pub record Machine : Type 0 where
  -- the attributes' keys in package semconv
  pub namespace_key : Bytes
  pub pod_name_key : Bytes
  pub pod_uid_key : Bytes
  pub otel_attributes : Option (Bytes → Option Bytes)
  pub getenv : Bytes → Bytes
  pub goos : Bytes
  pub read_file : Bytes → Option Bytes
  pub hostname : Option Bytes
  pub mountinfo : Option (List Bytes)

pub record Metadata : Type 0 where
  pub namespace : Bytes
  pub pod_name : Bytes
  pub pod_uid : Bytes

unfoldable pub otel_value : Machine → Bytes → Bytes
otel_value m key = elim m.otel_attributes [
  | none ↦ []
  | some kvs ↦ elim (kvs key) [ none ↦ [] | some val ↦ val ]
]

-- The attribute if it is there and not empty, and else the variable.
unfoldable pub attribute_or_env : Machine → Bytes → Bytes → Bytes
unfolding otel_value
attribute_or_env m key name =
    let val = otel_value m key in if is_empty val then m.getenv name else val

unfoldable pub is_os : Machine → Bytes → Bool
is_os m os = bytes_eq m.goos os

unfoldable pub determine_namespace_file : Machine → Bytes
unfolding is_os
determine_namespace_file m =
    if is_os m (codes "windows")
    then codes "C:\\var\\run\\secrets\\kubernetes.io\\serviceaccount\\namespace"
    else codes "/var/run/secrets/kubernetes.io/serviceaccount/namespace"

unfoldable pub get_namespace_from_file : Machine → Option Bytes
unfolding determine_namespace_file
get_namespace_from_file m = m.read_file (determine_namespace_file m)

unfoldable pub get_pod_uid_from_file : Machine → Option Bytes
unfolding is_os get_pod_uid_from_proc
get_pod_uid_from_file m =
    if is_os m (codes "linux") then get_pod_uid_from_proc m.mountinfo else none

abbrev pub or_empty : Option Bytes → Bytes
or_empty none = []
or_empty (some s) = s

-- The namespace: `none` for an error, which an empty file is too.
unfoldable pub request_namespace : Machine → Option Bytes
unfolding attribute_or_env get_namespace_from_file
request_namespace m =
    let namespace = attribute_or_env m m.namespace_key (codes "SW_K8S_POD_NAMESPACE") in
    if is_empty namespace
    then get_namespace_from_file m >>= (λ ns. if is_empty ns then none else some ns)
    else some namespace

-- requestMetadata; `none` for its error.
unfoldable pub request_metadata : Machine → Option Metadata
unfolding request_namespace attribute_or_env get_pod_uid_from_file
request_metadata m =
    let name = attribute_or_env m m.pod_name_key (codes "SW_K8S_POD_NAME") in
    let uid = attribute_or_env m m.pod_uid_key (codes "SW_K8S_POD_UID") in
    do
      ns ← request_namespace m
      some (record {
        namespace = ns;
        pod_name = if is_empty name then or_empty m.hostname else name;
        pod_uid = if is_empty uid then or_empty (get_pod_uid_from_file m) else uid;
      })

-- MemoizeMetadata: what was found the first time, if there was one, and then what is found now.
unfoldable pub memoize_metadata :
    Machine → Option (Option Metadata) → Option Metadata × Option (Option Metadata)
unfolding request_metadata
memoize_metadata m none = let found = request_metadata m in (found, some found)
memoize_metadata m (some found) = (found, some found)

-- Detect of the pod's detector: the attributes of what MemoizeMetadata has, and what it keeps.
unfoldable pub detect_pod :
    Machine → Option (Option Metadata) → List (Bytes × Bytes) × Option (Option Metadata)
unfolding memoize_metadata
detect_pod m memo =
    let (found, after) = memoize_metadata m memo in
    (
      elim found [
        | none ↦ []
        | some metadata ↦
            (m.pod_uid_key, metadata.pod_uid)
            ∷ (m.pod_name_key, metadata.pod_name)
            ∷ (m.namespace_key, metadata.namespace)
            ∷ []
      ],
      after,
    )

-- readUamsClientId: the id of the file, or else the one of the HTTP endpoint, or else the nil id.
unfoldable pub read_uams_client_id : {U : Type 0} → U → Option U → Option U → U × Bool
read_uams_client_id nil_id (some id) http = (id, true)
read_uams_client_id nil_id none (some id) = (id, true)
read_uams_client_id nil_id none none = (nil_id, false)
