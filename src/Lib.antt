-- ===== src/Lib.antt =====
-- A verification library for pmesh, a process manager, load balancer and reverse proxy. It models the
-- decisions that the program takes for each request and each message: who is admitted, who serves it,
-- when it is tried again and which handler gets it.
--
-- How the parts interact: the router (vhttp) finds the handlers of a request by host and path. A
-- handler may limit the rate of a client (rate) or pass the request to a balancer (lb), which picks an
-- upstream, counts its errors and asks the retrier (retry) whether to send a request again. The
-- upstreams are the processes of the services (service), which a ticker keeps, scales and stops, with
-- addresses of the allocator (subnet), watched by the health monitor (health). A request carries the
-- session of its client (vhttp/client.go) and may be signed (urlsigner). The nodes call each other over
-- pooled connections (pmtp).
--
-- Files and the code that they model (paths from the root of the repository):
--
--   Base            numbers, lists, Boolean tests, 64-bit integers and texts; no code of the program.
--   Rate/Window     rate/window.go: `window` is one 64-bit word (Rate.Window.Window), with the count
--                   in the upper half and the tick in the lower; `Inc` is `inc`, and its
--                   compare-and-swap loop is `inc_loop`, which meets a list of foreign writes.
--                   `slidingWindow` is SlidingWindow with `inc_sliding` and `read_sliding`.
--   Rate/Limit      rate/limit.go and the parts of rate/rate.go it calls: `validate`, `OnExceed`
--                   (on_exceed), and `Enforce`, cut into `probe`, `join`, `wake` and `leave`, the
--                   steps between which other goroutines run. Clients has the interleavings.
--   Retry           retry/policy.go, retry/retrier.go, retry/errors.go. `run` is the loop of
--                   `Retrier.Run` on fuel, one unit for each call: attempts + 1 are enough.
--   LoadBalancer    lb/lb.go, lb/upstream.go, lb/options.go. Upstreams are pointers into a heap, since
--                   the balancer, the session and the request share them. `next_upstream`,
--                   `pick_upstream`; Response has the metrics and the reaction to an error response;
--                   Serving a request with its retries, on a unit of fuel for each attempt: attempts + 1
--                   are enough.
--   Vhttp/Pattern   vhttp/pattern.go: matching, and `UnmarshalText` on fuel. A set holds no sets, so
--                   two units of fuel are enough. regexp.Compile is a parameter.
--   Vhttp/Mux       vhttp/mux.go with the results of vhttp/hnd.go, over any type of request states.
--   Vhttp/Groups    vhttp/vhost.go: `createGroups`; Hosting is `ServeHTTP` of a group of virtual hosts.
--   Vhttp/Buffered  vhttp/buffered_response.go: responses that are kept.
--   Vhttp/Client    vhttp/client.go: sessions, `BlockUntil` with the writes of other goroutines, and the
--                   header that `StartClientRequest` passes on; credentials and addresses are arguments.
--
--   Netx/Ip         netx/ip.go: addresses of two words, ports and nets; netip.ParseAddr is a parameter.
--   Netx/Proxies    netx/proxies.go: which headers name the client; the networks of Cloudflare are an argument.
--   Netx/IpMap      netx/ipmap.go: the binary search of `Find`, on as much fuel as there are ranges.
--   Ids/Snowflake   snowflake/id.go, and Ids/Ray ray/id.go and ray/host.go with package hex written out.
--   Lru             lru/cache.go, one call at a time, with entries as pointers into a heap.
--   Session         session/runner.go: Message is how a message is served and settled, Schedule the rounds of
--                   the nodes that share a schedule, over a key-value store with the laws of NATS, Quota the
--                   rate of a runner.
--   Subnet          subnet/allocator.go: the 64 rounds of `Allocate`; net.ListenTCP is a parameter.
--   Health          health/monitor.go: the streaks of `observe`; the results of the checks are arguments.
--   Service         service/svc_app.go. Process has `appProcessState` and its termination (bump_deadline
--                   is `bumpDeadline` with the writes of other goroutines, `try_terminate`, `terminate`
--                   on the clock readings of its rounds); App is `Prepare`; Server is a round of the
--                   loop of `tick`, whose measurements and process starts are arguments. Builds is
--                   service/build_files.go, the directories of the builds; which calls of the system fail
--                   is an argument.
--   Urlsigner       urlsigner/digest.go (Digest) and urlsigner/signer.go (Signer): texts are bytes, and
--                   the cipher, base64, the nonce, the clock and the order of a map are arguments.
--                   `readMap` runs on one unit of fuel for a byte, which is enough.
--   Pmtp            pmtp/jrpc_code.go: a connection with its pending calls; the critical sections and
--                   the rounds of `input` are the steps that a list of events orders. Pool is
--                   pmtp/pool_mux.go, with the clients' `Busy` and new connections as arguments; Stream is
--                   pmtp/jrpc_stream.go, packets as bytes.
--   Textproc        textproc/encoder.go: encodings and `EncodePart`, whose rounds run on one unit of fuel for a
--                   byte and one more, which is enough; which calls of the writer fail is an argument.
--   Tlsmux          tlsmux/listener.go: which sublistener serves a protocol; Sublistener has its channels, with
--                   each case of a select as an event, in any order.
--   Xlog            xlog/parser_filter.go: the filters of log lines, put together in any way; Muxing is
--                   xlog/tail_ooo.go, the writer that puts lines in order, one call at a time.
--   Hosts           hosts/domains.go: `Match`, `Range` and `MatchMap`; Files is hosts/parsing.go, with
--                   maps as lists of entries, and `insert` for any order of the entries.
--
-- The clock, the random numbers, the context and other goroutines are arguments. An error is a value,
-- a panic is `none`. int64 durations are integers that wrap; uint32 and uint64 are natural numbers with
-- the remainder written out.
--
-- Not modelled: reading and printing of rates and of YAML and JSON, certificates and TLS, the start of
-- processes, NATS, the command line and the terminal, which are I/O or calls of libraries.
pub mod Base
pub mod Health
pub mod Hosts
pub mod Ids
pub mod LoadBalancer
pub mod Lru
pub mod Netx
pub mod Pmtp
pub mod Rate
pub mod Retry
pub mod Service
pub mod Session
pub mod Subnet
pub mod Textproc
pub mod Tlsmux
pub mod Urlsigner
pub mod Vhttp
pub mod Xlog
