-- ===== src/Oboe/Remote/Service.antt =====
-- internal/oboe/settings_http_service.go: the request for settings, and what its response means. The HTTP client, package
-- net/url's parser and JSON are interfaces: a response is an argument.
use apm_go.Prelude.{
  ℕ, ◌+◌, ◌-◌, ◌/◌, ◌%◌, Bool, not, ◌&&◌, ◌||◌, List, [], ◌∷◌, ◌++◌, Option, none, some, Bytes,
  codes, is_empty, reverse, ◌==◌, leb, ltb, if◌then◌else◌,
}
use apm_go.Oboe.Remote.{RemoteSettings, Answer, retrieved, invalid_service_key, other_error}

-- The transport is the proxy's; `none` for the default one.
pub record SettingsService (T : Type 0) : Type 0 where
  pub base_url : Bytes
  pub service_name : Bytes
  pub host_name : Bytes
  pub bearer_token : Bytes
  pub transport : Option T

-- The configured proxy comes with the transport that is made of it, `none` for an error.
unfoldable pub new_settings_service :
    {T : Type 0} → Bytes → Option T → Bytes → Bytes → Bytes → Bytes → SettingsService T
new_settings_service proxy_url transport base_url service_name host_name bearer_token = record {
  base_url = base_url;
  service_name = service_name;
  host_name = if is_empty host_name then codes "unknown" else host_name;
  bearer_token = bearer_token;
  transport = if not (is_empty proxy_url) then transport else none;
}

-- url.PathEscape
unfoldable pub is_path_char : ℕ → Bool
is_path_char c =
    (leb b'a' c && leb c b'z')
    || (leb b'A' c && leb c b'Z')
    || (leb b'0' c && leb c b'9')
    || c == b'-'
    || c == b'_'
    || c == b'.'
    || c == b'~'
    || c == b'$'
    || c == b'&'
    || c == b'+'
    || c == b':'
    || c == b'='
    || c == b'@'

unfoldable pub upper_hex : ℕ → ℕ
upper_hex d = if ltb d 10 then b'0' + d else b'A' + (d - 10)

unfoldable pub path_escape : Bytes → Bytes
unfolding is_path_char upper_hex
path_escape [] = []
path_escape (c ∷ s) =
    let rest = path_escape s in
    if is_path_char c then c ∷ rest else b'%' ∷ upper_hex (c / 16) ∷ upper_hex (c % 16) ∷ rest

-- strings.TrimSuffix(s, "/"), on the reversed text.
unfoldable pub drop_slash : Bytes → Bytes
drop_slash [] = []
drop_slash (c ∷ s) = if c == b'/' then s else c ∷ s

unfoldable pub trim_slash : Bytes → Bytes
unfolding drop_slash
trim_slash s = reverse (drop_slash (reverse s))

module _ {T : Type 0} where
  unfoldable pub build_url : SettingsService T → Bytes
  unfolding trim_slash path_escape
  build_url s =
      trim_slash s.base_url
      ++ (codes "/v1/settings/" ++ (path_escape s.service_name ++ b'/' ∷ path_escape s.host_name))

  -- The two headers of a request.
  unfoldable pub set_auth_headers : SettingsService T → List (Bytes × Bytes)
  set_auth_headers s =
      (codes "Authorization", codes "Bearer " ++ s.bearer_token)
      ∷ (codes "Accept", codes "application/json")
      ∷ []

-- A body that cannot be read is `none`.
pub record Response : Type 0 where
  pub status_code : ℕ
  pub body : Option Bytes

-- getSettings, of the client's response (`none` for an error of the request) and of the JSON decoder.
unfoldable pub get_settings :
    {F : Type 0} → (Bytes → Option (RemoteSettings F)) → Option Response → Answer F
get_settings decode none = other_error
get_settings decode (some resp) =
    if resp.status_code == 401 || resp.status_code == 403
    then invalid_service_key
    else if not (resp.status_code == 200)
    then other_error
    else elim resp.body [
      | none ↦ other_error
      | some body ↦ elim (decode body) [ none ↦ other_error | some s ↦ retrieved s ]
    ]
