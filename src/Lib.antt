-- ===== src/Lib.antt =====
-- The RPC framework of packages/: a protocol library (packages/protocol) that frames messages on
-- a TCP stream, and a core library (packages/core) with the client, the server and service
-- discovery.
--
-- How the parts meet. A client's call goes through the rate limiter and the circuit breaker,
-- looks up the service's endpoints and has a load balancer choose one, and the message that it
-- sends there is framed by the codec: serialized, compressed if it is long, and put behind a
-- packet header. The receiver pushes the chunks that the socket gives it into its codec, whose
-- byte queue joins them and whose loop cuts them into packets again and gives their messages.
-- The server's listener hands each request to the method invoker and writes the answer, and the
-- client's connection settles the promise of the request whose id the answer has.
--
-- The files and the code. Protocol/ is packages/protocol/src:
--   Protocol/Types is types.ts, constants.ts and the interface of compressor.ts;
--   Protocol/BufferQueue is buffer-queue.ts (push, peek, read, copy);
--   Protocol/Packet is packet.ts (encodePacket, decodePacketHeader, readPacketLength);
--   Protocol/Codec is codec.ts (constructor, encode, push, normalizeLimit);
--   Protocol/JsonSerializer is serializer.ts, Protocol/ProtobufSerializer is protobuf-serializer.ts.
-- Errors is packages/core/src/errors.ts. Client/ is packages/core/src/client:
--   Client/CircuitBreaker is circuit-breaker.ts, Client/RateLimiter is rate-limiter.ts.
--   Client/RetryPolicy is retry-policy.ts, Client/ConnectionPool is connection-pool.ts. Of
--   rpc-client.ts, Client/RpcClient/Retries has getMaxAttempts and getRetryBackoffMs, Attempts has
--   the `try` block of callWithDiscoveryFailover and Failover its loop, AfterFailure and History
--   are about the attempts that a call makes, and Calls has recordMetrics and what call does
--   before and after its attempts, as two steps (admit, settle), since other calls may run between
--   them. Breaking is about a failed call and those after it. RpcClient/Pools has the options of
--   codecs and connections, the pools of connections and the metadata, and Direct has callDirect;
--   Lending is about the pools and Codecs about the codecs.
--   Client/Proxy is proxy.ts. Client/Connection is connection.ts: State has
--   its fields and constructor, Requests send, handleData and rejectAll, Lifecycle connect, the
--   listeners of a socket, the heartbeat, scheduleReconnect and close, and Run the events that come
--   one after another; Ledger, Settlement and Account are about the promises, Answers about
--   responses, Closing and Closed about close, Trying and Reconnecting about a connection that was
--   lost.
-- Discovery/ is packages/core/src/discovery: Discovery/Types is types.ts and static-registry.ts, and
--   RoundRobin, WeightedRoundRobin, LeastActive and Random are the load balancers of those names.
-- Server/ is packages/core/src/server: ServiceRegistry is service-registry.ts and MethodInvoker is
--   method-invoker.ts. Of rpc-server.ts, RpcServer has the states, the active requests and the
--   drains that wait for them; Handling the "data" listener as a task that runs from one await to
--   the next, Handling/Sockets listen, close and handleConnection, Handling/Run the events, and
--   Handling/Turns and Handling/Active count the tasks.
-- RemoteCall joins them: a request that connection.ts sends, rpc-server.ts handles and connection.ts
-- gets the response of. The files below a component hold its proofs, named for what they prove, and
-- the files called Tests and PoolTests apply each theorem at a concrete input. Prelude holds what
-- all of them share: Boolean tests on ℕ, lists over ℕ, an outcome that throws, dictionaries, and the
-- numbers of JavaScript.
--
-- How the code is translated. An object is a record and a method that changes it is a function
-- to the changed record; throwing is the result `throws`. A Buffer is a list of natural numbers,
-- and a write of a number above 255 throws as Node's does. Times are natural numbers, passed to
-- the functions that call Date.now(). A Map is an association list with JavaScript's set and
-- get. An option that the caller may set to any number is a Number: a whole one, a fraction, a
-- negative one, NaN or an infinity; after Math.floor and Math.max it is a natural number, but
-- for NaN and Infinity, for which the constructors of the rate limiter and the circuit breaker
-- give no object of the model.
--
-- Parameters. A serializer, a compressor, the protobuf model and JSON are records of functions,
-- Buffer.allocUnsafe is a function from a length, and the index that Math.random gives is an
-- argument. The failover's network is a record of the operations that it calls on balancer, pool
-- and connection, and a service's methods are functions of its implementation. Theorems state
-- what they need of them: that allocUnsafe gives the length it was asked for, and that
-- deserializing or decompressing what this side wrote gives it back.
--
-- Fuel. The failover loop recurs on the attempts that are left. The codec's loop runs on the
-- length of its queue and the queue's copy loop on the number of its chunks plus one; push_total
-- and read_lem say that this is enough for every input.
--
-- Not modelled: the logger, the benchmark and the example. Node's net servers and sockets are
-- the environment: what they do are the events.
pub mod Prelude
pub mod Errors
pub mod Protocol
pub mod Discovery
pub mod Client
pub mod Server
pub mod RemoteCall
