-- ===== src/Lib.antt =====
-- Verification library for the Go programs of the repository: what they promise, and that they keep it.
--
-- Parts. The repository is a set of container images. The Go programs in it are separate processes,
-- and the ones modelled here do not call each other:
--
--   * minimdnsd (minimdnsd/cmd/minimdnsd/main.go) answers multicast DNS queries for the name of the
--     host. A datagram is parsed (`parseIntent`, over `parseQuestions`, `parseName`, `parseLabels`),
--     the addresses of the interface are chosen (`ifaceUsableIPs`), and a reply is built
--     (`buildResponse`, over `encodeName`) and sent to the source and the group (`serveUDP`).
--   * geo-sni-proxy (geo-sni-proxy/internal) is a DNS server that answers matched names with its own
--     address (dns/dns.go), and a proxy that reads the server name of the TLS connections which then
--     arrive (`parseSNI` in proxy/proxy.go) and opens a tunnel to it (`dialSOCKS5`). At its start it
--     points the machine's resolv.conf at itself (`EnsureHostsAndResolv` in dns/dns.go).
--   * netfin (netfin/internal) copies a directory to a backup as it changes. Events are queued and
--     collapsed (filesync/sync.go), and each path is brought up to date by `SyncRel`, which asks the
--     exclude patterns (filesync/exclude.go) and copies or removes by safeio/copy.go. `Reconcile` and
--     `SyncTree` do so for all that a walk over the source meets, and remove what it did not meet. The
--     loop of `runWatching` calls them as events come and timers end. config/config.go reads what the
--     others are given, among it the exclude patterns; sqliterepl/repl.go finds the databases that are
--     replicated, and restore/restore.go copies the backup back.
--   * openwrt_cidr_checker (checker/main.go) lets a client in whose address lies in a range of the
--     router's interface.
--   * rewrite_http_header and rewrite_http_body (rewriter/main.go in each) are proxies that rewrite a
--     header or a body by a pattern.
--   * acmesh (acmesh/main.go) solves the DNS challenges of cert-manager by a script, from whose output
--     it reads whether acme.sh succeeded.
--   * creality-discovery (camera.go) relays the camera of a printer to viewers: it makes frames of
--     video packets and hands them to the clients of a hub.
--
-- Files.
--   Base         numbers, lists, byte strings, and `Outcome`: a value, an error, a panic (an index out
--                of range) or a loop out of fuel.
--   Go           what the programs use of Go's library: Text (strings), Net (net.IP), Maps, Path
--                (path/filepath Clean), Glob (path/filepath Match), Walk (path/filepath WalkDir).
--   Mdns         minimdnsd: Hostname, Name (labels and pointers), Query, Response, Iface and Server.
--   Geo.Tls      `parseSNI`; each guard is followed by the next part of the hello, so the function is
--                cut at its guards: handshake, session_id, cipher_suites, compression, extensions.
--                Tls.Hello and Tls.Extract have the writer of a ClientHello, Tls.Fault the faults.
--   Geo.Rewrite  `rewriteAnswers`, the handler of `StartServer`, and the choice of the own address.
--   Geo.Socks    `dialSOCKS5`.
--   Geo.Http     `handleHTTPConn` and `handleTLSConn`, with the header that is read.
--   Geo.Tunnel   `dialHTTPProxy` and `dialViaProxy`.
--   Geo.Resolv   `EnsureHostsAndResolv`, with the faults of its reads and writes.
--   Netfin.Excluder, Netfin.Disk, Netfin.Filesync, Netfin.Pending, Netfin.Reconcile
--                `Excluder`; the backup as a map from paths to nodes; `SyncRel` and all that it calls;
--                `queue`, `handleEvent` and `collapsePending`; the removal after a walk.
--                Filesync.Recorded, Filesync.Mirror and Filesync.Sync have the proofs.
--   Netfin.Walk  `Reconcile` whole, with its walks. Walk.Visits and Walk.Listing compare the walk with
--                a loop, Walk.States, Walk.Recorded and Walk.Prune follow the two walks, and Walk.Deep
--                joins them.
--   Netfin.Flush `SyncTree` and `flushPending`.
--   Netfin.Watching
--                `Run` and `waitForDir`; the turns of `runWatching` as a step relation.
--                Watching.Fair is about unending runs of it, Watching.Dry and Walk.Dry are about dry
--                runs.
--   Netfin.Config
--                `applyDefaultsAndValidate` and all that it calls. Config.Dbs and Config.Valid are
--                about the fields, Config.Accepted is about the errors, Config.Names and
--                Config.Excluded are about the patterns.
--   Netfin.Repl  `discoverDBPaths`, the set of known databases, and the paths that `runOnce` sets.
--                Repl.Content and Repl.Databases describe what is found.
--   Netfin.Restore
--                `restoreFiles`, `restoreDB` and `Run`.
--   Acmesh       `DoDNSAPI`, for any size of its buffer.
--   Openwrt      `httpHandler` and `getCIDR`, with the lists' shared array. Openwrt.Laws is about the
--                lists, Openwrt.Sound about the answer.
--   Rewriters    the interface of `http.Header`; Header has `modifyRequest` and `modifyResponse`, Body
--                has `RewriteBody` and `ResponseWriter`.
--   Camera       Idr (`containsH264IDR`), Frame (`makeCameraFrameHandler`), Hub (`cameraHub`), Codec
--                (`codecStringFromFMTP`) and Sdp (`fixCrealitySDP`).
--   Tests        runs, and the theorems at concrete inputs.
--
-- Correspondence. A definition has the name of the Go function in snake case, and takes the same
-- arguments; what the operating system, a peer or a library returns is an argument (a datagram, the
-- bytes a connection sends, the interfaces, `Lstat` by path, the domain matcher). What a function
-- writes is in its result. A method that changes its receiver takes and returns the state. `(T, error)`
-- is an `Outcome`; in netfin, where a failing step keeps what it changed before, an error is an
-- `Option` beside the state.
--
-- Bounds and fuel. Bytes are natural numbers; arithmetic on the fields of a packet keeps its
-- remainder (`% 256`, `% 2 ^ 16`). The program's `int` has 64 bits and holds sums of a few 16-bit
-- fields, so it needs no bound. `parseLabels` follows at most 10 pointers and moves forward between
-- them, the loops of `parseSNI` move by 3 bytes at least in each round: fuel of the packet's length
-- and one is given, and that it is enough is proved (no result is `stuck`).
--
-- The rounds of openwrt_cidr_checker are the three of its limit.
--
-- Not modelled. Sockets, signals, logs and clocks, and goroutines but for the hub of
-- creality-discovery, whose threads are runs of events, and the loop of netfin, whose timer is a
-- state; the watches of netfin, its commands, and the litestream library that replicates its
-- databases; the connection of creality-discovery to the printer (WebRTC by pion) and its
-- discovery; sniproxy (a copy); and the parts of the repository that are not Go: Dockerfiles,
-- scripts, charts, and copies of other projects.
-- Text functions are those of ASCII: letters and space beyond ASCII are bytes like others. In netfin
-- the umask is 0, other errors of the disk come before any change, and the flush of a parent
-- directory to disk is left out. The configuration is taken from the values that the YAML library
-- leaves.
pub mod Acmesh
pub mod Base
pub mod Camera
pub mod Geo
pub mod Go
pub mod Mdns
pub mod Netfin
pub mod Openwrt
pub mod Rewriters
pub mod Tests
