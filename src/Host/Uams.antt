-- ===== src/Host/Uams.antt =====
-- internal/uams/http.go, internal/uams/file.go and internal/uams/detector.go: the id of the machine's client. The file system, the
-- HTTP client, JSON and package uuid are interfaces: what they return is an argument.
pub mod Detected
use apm_go.Prelude.{
  ℕ, Bool, true, false, not, List, [], ◌∷◌, Option, none, some, Bytes, codes, bytes_eq, ◌==◌,
  if◌then◌else◌, ◌>>=◌,
}
use apm_go.Host.{read_uams_client_id}

-- A value in JSON, as far as it is looked at, and an object's values by their keys.
pub data JsonValue : Type 0 where
  json_string : Bytes → JsonValue
  json_other : JsonValue

-- uuid.Parse and String, and json.Unmarshal into a map.
pub record Uuids (U : Type 0) : Type 0 where
  pub nil_id : U
  pub parse : Bytes → Option U
  pub show_id : U → Bytes
  pub unmarshal : Bytes → Option (Bytes → Option JsonValue)

-- What os.Stat says of the file, and what os.ReadFile gives.
pub data StatFile : Type 0 where
  no_file directory : StatFile
  file_content : Option Bytes → StatFile

-- What http.Get returns: an error, or the status with the body, `none` for one that is not read.
pub data HttpReply : Type 0 where
  no_reply : HttpReply
  http_reply : ℕ → Option Bytes → HttpReply

-- determineFileForOS
unfoldable pub determine_file_for_os : Bytes → Bytes
determine_file_for_os goos =
    if bytes_eq goos (codes "windows")
    then codes "C:\\ProgramData\\SolarWinds\\UAMSClient\\uamsclientid"
    else codes "/opt/solarwinds/uamsclient/var/uamsclientid"

pub record UamsHost : Type 0 where
  pub goos : Bytes
  pub stat : Bytes → StatFile
  pub get : Bytes → HttpReply

abbrev pub client_url : Bytes
client_url = codes "http://127.0.0.1:2113/info/uamsclient"

module _ {U : Type 0} where
  -- ReadFromFile
  unfoldable pub read_from_file : Uuids U → StatFile → Option U
  read_from_file uuids no_file = none
  read_from_file uuids directory = none
  read_from_file uuids (file_content none) = none
  read_from_file uuids (file_content (some data_read)) = uuids.parse data_read

  -- The id in a decoded body.
  unfoldable pub id_of_object : Uuids U → (Bytes → Option JsonValue) → Option U
  id_of_object uuids result = elim (result (codes "uamsclient_id")) [
    | none ↦ none
    | some json_other ↦ none
    | some (json_string text) ↦ uuids.parse text
  ]

  -- ReadFromHttp
  unfoldable pub read_from_http : Uuids U → HttpReply → Option U
  unfolding id_of_object
  read_from_http uuids no_reply = none
  read_from_http uuids (http_reply status body) =
      if not (status == 200)
      then none
      else do text ← body; result ← uuids.unmarshal text; id_of_object uuids result

  -- Detect: the attributes, or none at all without an id. `host_id_key` is semconv's.
  unfoldable pub detect : Uuids U → Bytes → UamsHost → Option (List (Bytes × Bytes))
  unfolding read_from_file read_from_http read_uams_client_id determine_file_for_os
  detect uuids host_id_key h =
      let file = read_from_file uuids (h.stat (determine_file_for_os h.goos)) in
      let http = read_from_http uuids (h.get client_url) in
      let (id, ok) = read_uams_client_id uuids.nil_id file http in
      if ok
      then some
          ((codes "sw.uams.client.id", uuids.show_id id) ∷ (host_id_key, uuids.show_id id) ∷ [])
      else none
