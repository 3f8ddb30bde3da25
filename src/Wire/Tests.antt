-- ===== src/Wire/Tests.antt =====
-- A token on its way to the server.
use grpc_template.Common.{◌≡◌, refl, [], codes}
use grpc_template.Rpc.{Context}
use grpc_template.Rpc.Demo.{demo, background, start}
use grpc_template.Client.Interceptor.Auth.{auth, stream_auth}
use grpc_template.Client.Interceptor.Auth.Tests.{cfg, key, keyed, call, open_stream}
use grpc_template.Server.Interceptor.Auth.{found, extract_bearer_token}
use grpc_template.Wire.{received, auth-extract_bearer_token}

auth-extract_bearer_token_example :
    (sent : Context demo) × (auth demo (cfg key) call background start ≡ call sent start)
    × (stream_auth demo (cfg key) open_stream background start ≡ open_stream sent start)
    × (extract_bearer_token demo (received {G = demo} (λ md. md) sent background)
        ≡ found (codes "k"))
auth-extract_bearer_token_example =
    auth-extract_bearer_token {G = demo} (λ md. md) (λ md. refl) (cfg key) key background keyed
      background start start b'k' [] call open_stream refl refl refl
