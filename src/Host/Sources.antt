-- ===== src/Host/Sources.antt =====
-- Where the metadata of a pod come from.
use apm_go.Prelude.{
  List, [], ◌∷◌, Option, none, some, ◌≡◌, arith, Bytes, codes, is_empty, if◌then◌else◌,
}
use apm_go.Host.{
  Machine, otel_value, get_namespace_from_file, get_pod_uid_from_file, or_empty, request_metadata,
}

-- The first text of a list that is not empty.
abbrev pub first_text : List Bytes → Option Bytes
first_text [] = none
first_text (s ∷ ss) = let rest = first_text ss in if is_empty s then rest else some s

-- The namespace is the first that is not empty of the attribute, the variable and the file; without one there are no metadata.
-- Likewise the pod's name is the first of the attribute, the variable and the host's name, and its id the first of the
-- attribute, the variable and the mount table, but these two may stay empty.
pub request_metadata_lem :
    (m : Machine)
    → request_metadata m
      ≡ elim (first_text (
          otel_value m m.namespace_key
          ∷ m.getenv (codes "SW_K8S_POD_NAMESPACE")
          ∷ or_empty (get_namespace_from_file m)
          ∷ [])) [
            | none ↦ none
            | some ns ↦ some (record {
              namespace = ns;
              pod_name = or_empty (
                  first_text (
                    otel_value m m.pod_name_key
                    ∷ m.getenv (codes "SW_K8S_POD_NAME")
                    ∷ or_empty m.hostname
                    ∷ []));
              pod_uid = or_empty (
                  first_text (
                    otel_value m m.pod_uid_key
                    ∷ m.getenv (codes "SW_K8S_POD_UID")
                    ∷ or_empty (get_pod_uid_from_file m)
                    ∷ []));
            })
          ]
unfolding request_metadata
request_metadata_lem m = ground arith
