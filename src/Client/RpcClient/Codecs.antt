-- ===== src/Client/RpcClient/Codecs.antt =====
-- client/rpc-client.ts: the codec of the client and those of its connections are set up alike.
use weisley_rpc_framework.Prelude.{ℕ, ◌≡◌, refl, ◌∙◌, Option, none, some, String, ok, ◌or_else◌}
use weisley_rpc_framework.Protocol.Types.{Serializer}
use weisley_rpc_framework.Protocol.Codec.{RpcCodec, RpcCodecOptions, new_codec}
use weisley_rpc_framework.Client.Connection.State
use weisley_rpc_framework.Client.Connection.State.{new_connection, initial}
use weisley_rpc_framework.Client.RpcClient.Pools.{
  RpcClientOptions, codec_options, client_codec, connection_options,
}

module _ {Value : Type 0} (json_serializer : Serializer Value) where
  -- It makes no difference who puts the default serializer in.
  default_serializer_given :
      (serializer : Option (Serializer Value)) (o : RpcCodecOptions Value)
      → new_codec json_serializer
          (record o { serializer = some (serializer or_else json_serializer) })
        ≡ new_codec json_serializer (record o { serializer = serializer })
  unfolding new_codec
  default_serializer_given none o = refl
  default_serializer_given (some serializer) o = refl

  -- Where the constructor of a client does not throw, neither does that of a connection that the
  -- client makes for any host and port, and the new connection reads with the codec that the client
  -- writes with.
  pub new_connection-client_codec :
      (o : RpcClientOptions Value) (host : String) (port : ℕ) (codec : RpcCodec Value)
      → client_codec json_serializer o ≡ ok codec
      → new_connection json_serializer (connection_options o host port)
        ≡ ok (initial (connection_options o host port) codec)
  unfolding client_codec codec_options new_connection connection_options State.codec_options
  new_connection-client_codec o host port codec made =
      let same = default_serializer_given o.serializer (codec_options o) in rw (same ∙ made) refl
