-- ===== src/Server/Interceptor/PeerKey/Host.antt =====
-- The key of a direct connection.
use grpc_template.Common.{◌≡◌, false, Option, some, Bytes}
use grpc_template.Common.Scan.Hosts.{IsHostPort, join_host_port, split_host-join}
use grpc_template.Rpc.{Rpc, Context}
use grpc_template.Server.Interceptor.PeerKey.{direct_key, peer_key}

direct_key-join : (h p : Bytes) → IsHostPort h p → direct_key (some (some (join_host_port h p))) ≡ h
unfolding direct_key
direct_key-join h p ok = rw (direct_key, split_host-join h p ok)

-- Unless proxies are trusted, the key of a connection from a host and a port, written as
-- `net.JoinHostPort` does and with no further brackets or colons, is the host: it depends on no
-- metadata that the client sends, and is the same for every port.
pub peer_key-join :
    (G : Rpc) (ctx : Context G) (md : Option (Rpc.Md G)) (h p : Bytes)
    → IsHostPort h p
    → peer_key G (record ctx { incoming = md; peer = some (some (join_host_port h p)) }) false ≡ h
unfolding peer_key
peer_key-join G ctx md h p ok = direct_key-join h p ok
