-- ===== src/Proxy/Dialing.antt =====
-- What becomes of the connection to the proxy.
use apm_go.Prelude.{
  Bool, true, false, not, ◌&&◌, ◌||◌, Option, none, some, ◌≡◌, refl, arith, codes, bytes_eq,
  bytes_eq_sound,
}
use apm_go.Proxy.{ProxyUrl, Exchange, Dialed, grpc_proxy_dial, http_connect_handshake}

abbrev pub has_scheme : Option ProxyUrl → Bool → Bool
has_scheme none cert = false
has_scheme (some url) cert =
    (bytes_eq url.scheme (codes "https") && cert) || bytes_eq url.scheme (codes "http")

abbrev pub is_failure : Dialed → Bool
is_failure d = elim d.error [ none ↦ false | some e ↦ true ]

-- A dial succeeds exactly if the proxy's URL has one of the two schemes, with its certificates for https, and the proxy is
-- reached and grants the tunnel. But the connection stays open whenever the proxy was reached: also where it does not
-- grant the tunnel, so that the dial fails and no one is left to close it.
pub grpc_proxy_dial_lem :
    (url : Option ProxyUrl) (cert dialed : Bool) (x : Exchange)
    → let d = grpc_proxy_dial url cert dialed x in
      (is_failure d ≡ not (has_scheme url cert && dialed && http_connect_handshake x))
      × (d.open_connection ≡ (has_scheme url cert && dialed))
unfolding grpc_proxy_dial
grpc_proxy_dial_lem none cert dialed x = ground arith
grpc_proxy_dial_lem (some url) cert dialed x =
    let other : bytes_eq (codes "https") (codes "http") ≡ false = unfold bytes_eq in refl in
    ground (
      arith,
      other,
      bytes_eq_sound url.scheme (codes "https"),
      bytes_eq_sound url.scheme (codes "http"),
    )
