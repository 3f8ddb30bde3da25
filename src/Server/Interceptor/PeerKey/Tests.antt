-- ===== src/Server/Interceptor/PeerKey/Tests.antt =====
-- Runs of `peerKey`.
use grpc_template.Common.{◌≡◌, refl, true, false, some, [], ◌∷◌, ◌++◌, Bytes, codes}
use grpc_template.Common.Scan.{index_byte, has_byte, trim_space}
use grpc_template.Common.Scan.Laws.{StartsClean, EndsClean}
use grpc_template.Common.Scan.Hosts.{IsHostPort, join_host_port}
use grpc_template.Rpc.{Context}
use grpc_template.Rpc.Demo.{demo, background, Pairs}
use grpc_template.Server.Interceptor.PeerKey.{peer_key}
use grpc_template.Server.Interceptor.PeerKey.Host.{peer_key-join}
use grpc_template.Server.Interceptor.PeerKey.Spoof.{peer_key-forwarded}

abbrev headers : Pairs
headers = ("x-forwarded-for", codes "10.0.0.1, 10.0.0.2" ∷ []) ∷ []

abbrev ctx : Context demo
ctx = record background { incoming = some headers; peer = some (some (codes "[::1]:5051")) }

first_proxy : peer_key demo ctx true ≡ codes "10.0.0.1"
unfolding peer_key index_byte trim_space
first_proxy = refl

-- A list that begins with a comma gives every such client the same, empty key.
empty_key :
    peer_key demo
      (record background { incoming = some (("x-forwarded-for", codes " ,a" ∷ []) ∷ []) })
      true
    ≡ []
unfolding peer_key index_byte trim_space
empty_key = refl

no_peer : peer_key demo background false ≡ codes "unknown"
unfolding peer_key
no_peer = refl

loopback-IsHostPort : IsHostPort (codes "::1") (codes "5051")
unfolding index_byte
loopback-IsHostPort = record {
  no_open = refl;
  no_close = refl;
  port_colon = refl;
  port_open = refl;
  port_close = refl;
}

peer_key-join_example :
    peer_key demo
      (record background {
        incoming = some headers;
        peer = some (some (join_host_port (codes "::1") (codes "5051")));
      })
      false
    ≡ codes "::1"
peer_key-join_example =
    peer_key-join demo background (some headers) (codes "::1") (codes "5051") loopback-IsHostPort

peer_key-forwarded_example :
    (has_byte (peer_key demo ctx true) b',' ≡ false)
    × StartsClean (peer_key demo ctx true)
    × EndsClean (peer_key demo ctx true)
    × ((ip rest : Bytes)
        → codes "10.0.0.1, 10.0.0.2" ≡ ip ++ (b',' ∷ rest)
        → has_byte ip b',' ≡ false
        → StartsClean ip
        → EndsClean ip
        → peer_key demo ctx true ≡ ip)
peer_key-forwarded_example =
    peer_key-forwarded demo ctx headers refl (codes "10.0.0.1, 10.0.0.2") [] refl (λ e. cc)
