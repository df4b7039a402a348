-- ===== src/Proxy.antt =====
-- internal/proxy/helpers.go: connections through a proxy. What the parser of URLs, the dialers, the certificate's file and the
-- proxy's answer give is an argument.
pub mod Credentials
pub mod Dialing
use apm_go.Prelude.{
  ℕ, ◌+◌, ◌-◌, ◌*◌, ◌/◌, ◌%◌, Bool, true, false, not, List, [], ◌∷◌, ◌++◌, Option, none, some,
  Bytes, codes, bytes_eq, is_empty, ltb, ◌==◌, if◌then◌else◌,
}

-- The alphabet of base64.StdEncoding.
unfoldable pub base64_char : ℕ → ℕ
base64_char n =
    if ltb n 26
    then b'A' + n
    else if ltb n 52
    then b'a' + (n - 26)
    else if ltb n 62
    then b'0' + (n - 52)
    else if n == 62
    then b'+'
    else b'/'

-- base64.StdEncoding.EncodeToString
unfoldable pub encode_to_string : Bytes → Bytes
unfolding base64_char
encode_to_string [] = []
encode_to_string (a ∷ []) = base64_char (a / 4) ∷ base64_char (a % 4 * 16) ∷ b'=' ∷ b'=' ∷ []
encode_to_string (a ∷ b ∷ []) =
    base64_char (a / 4) ∷ base64_char (a % 4 * 16 + b / 16) ∷ base64_char (b % 16 * 4) ∷ b'=' ∷ []
encode_to_string (a ∷ b ∷ c ∷ s) =
    base64_char (a / 4)
    ∷ base64_char (a % 4 * 16 + b / 16)
    ∷ base64_char (b % 16 * 4 + c / 64)
    ∷ base64_char (c % 64)
    ∷ encode_to_string s

unfoldable pub basic_auth : Bytes → Bytes → Bytes
unfolding encode_to_string
basic_auth username password = encode_to_string (username ++ b':' ∷ password)

-- What url.Parse finds: the scheme, and the user with the password, "" if there is none.
pub record ProxyUrl : Type 0 where
  pub scheme : Bytes
  pub user : Option (Bytes × Bytes)

-- The request's headers in httpConnectHandshake, of gRPC's version.
unfoldable pub connect_headers : Bytes → ProxyUrl → List (Bytes × Bytes)
unfolding basic_auth
connect_headers grpc_version proxy =
    (codes "User-Agent", codes "grpc-go/" ++ grpc_version) ∷ elim proxy.user [
      | none ↦ []
      | some (u, p) ↦ (codes "Proxy-Authorization", codes "Basic " ++ basic_auth u p) ∷ []
    ]

-- The exchange with the proxy: whether the request is written, and the status of the response, `none` if it is not read.
pub record Exchange : Type 0 where
  pub written : Bool
  pub status : Option ℕ

-- httpConnectHandshake: whether there is no error; with one, it returns a nil connection.
unfoldable pub http_connect_handshake : Exchange → Bool
http_connect_handshake x =
    if not x.written then false else elim x.status [ none ↦ false | some code ↦ code == 200 ]

pub data DialError : Type 0 where
  bad_proxy_url bad_proxy_cert dial_failed scheme_not_supported handshake_failed : DialError

-- What the dialer's function leaves: the connection that it opened, if one is still open, and the error.
pub record Dialed : Type 0 where
  pub open_connection : Bool
  pub error : Option DialError

-- The deferred function of NewGRPCProxyDialer closes the named result; a return of nil has set that before.
unfoldable pub dial_return : Bool → Bool → Option DialError → Dialed
dial_return opened result_is_nil error =
    let failed : Bool = elim error [ none ↦ false | some e ↦ true ] in
    record {
      open_connection = if failed then (if result_is_nil then opened else false) else opened;
      error = error;
    }

-- The function that NewGRPCProxyDialer returns, of whether the certificates are read and the proxy is reached.
unfoldable pub grpc_proxy_dial : Option ProxyUrl → Bool → Bool → Exchange → Dialed
unfolding dial_return http_connect_handshake
grpc_proxy_dial none cert dialed x = dial_return false true (some bad_proxy_url)
grpc_proxy_dial (some url) cert dialed x =
    let tunnel =
      if not dialed
      then dial_return false true (some dial_failed)
      else if http_connect_handshake x
      then dial_return true false none
      else dial_return true true (some handshake_failed) in
    if bytes_eq url.scheme (codes "https")
    then (if not cert then dial_return false true (some bad_proxy_cert) else tunnel)
    else if bytes_eq url.scheme (codes "http")
    then tunnel
    else dial_return false true (some scheme_not_supported)

-- What the transport of NewHttpTransport has: the proxy, and the certificates of a file.
pub record HttpTransport : Type 0 where
  pub proxy : ProxyUrl
  pub root_cas : Option Bytes

unfoldable pub new_http_transport :
    (Bytes → Option ProxyUrl) → (Bytes → Option Bytes) → Bytes → Bytes → Option HttpTransport
new_http_transport parse_url read_file proxy cert_path = elim (parse_url proxy) [
  | none ↦ none
  | some url ↦
      if not (is_empty cert_path)
      then elim (read_file cert_path) [
        | none ↦ none
        | some cert ↦ some (record { proxy = url; root_cas = some cert })
      ]
      else some (record { proxy = url; root_cas = none })
]
