-- ===== src/Host/Uams/Detected.antt =====
-- Whose id the detector reports.
use apm_go.Prelude.{List, [], ◌∷◌, none, some, ◌≡◌, arith, Bytes, codes}
use apm_go.Host.{read_uams_client_id}
use apm_go.Host.Uams.{
  Uuids, UamsHost, determine_file_for_os, client_url, read_from_file, read_from_http, detect,
}

abbrev pub attributes_of : {U : Type 0} → Uuids U → Bytes → U → List (Bytes × Bytes)
attributes_of uuids key id =
    (codes "sw.uams.client.id", uuids.show_id id) ∷ (key, uuids.show_id id) ∷ []

-- The detector reports the id in the file if there is one that parses, whatever the endpoint would answer, else the one that the
-- endpoint answers, and nothing if neither has an id: never the nil id.
pub detect_lem :
    {U : Type 0} (uuids : Uuids U) (key : Bytes) (h : UamsHost)
    → let file = read_from_file uuids (h.stat (determine_file_for_os h.goos)) in
      let http = read_from_http uuids (h.get client_url) in
      detect uuids key h ≡ elim file [
        | some id ↦ some (attributes_of uuids key id)
        | none ↦ elim http [ some id ↦ some (attributes_of uuids key id) | none ↦ none ]
      ]
unfolding detect read_uams_client_id
detect_lem uuids key h = ground arith
