-- ===== src/Lib.antt =====
-- A model of a caching HTTP server that is driven by one io_uring: clients ask for resources, the
-- server fetches each resource once from its origin, and passes it on to all clients that wait for it.
--
-- Parts and files. Each handler of the program is a function here with the same name in lower case.
--   Server      src/Server.cpp: the client's request is read and cut (`fetch_header`, `handle_read`),
--               and what a client gets is handed to the ring (`add_write_request` and the like).
--   Headers     src/Utils.cpp: the lines of an HTTP header, found without regard to case.
--   Request     src/Utils.cpp: the kinds of request, and their release.
--   Stream      src/Stream.cpp: a resource (`Mux`) has a ring of chunks and a list of clients
--               (`Request`). Registry makes, finds and frees resources; Write is what one client gets;
--               Notify is what all clients of a resource get; Join is a new client, and the resources
--               whose time is over.
--   Cache       src/Cache.cpp: Files looks a resource up on the disk, Buffer is the ring of chunks on
--               their way to the file of a resource (`Node`).
--   Http        src/Http.cpp and src/HttpClient.cpp: the connection to the origin. Client is what
--               the code needs of a kind of connection, and the plain one; Fetch connects; Read passes an
--               answer on to the clients (Stream) or to the file (Cache). Tls is src/HttpsClient.cpp, the
--               kind of connection that goes through the TLS library.
--   Dns         src/DnsSeeker.cpp and src/Dns.cpp: State holds the cache of addresses and the list of
--               queries, and what the system answers (`Net`). Ask looks a host up or asks for it; Receive
--               reads an answer, through Reader, and tells the requests that wait for it (Right, Cached);
--               Fetch is what the engine calls: it looks in the file of hosts (Host) first.
--   Hls         src/HLSStream.cpp: the playlist mode. Channel reads the list of the playlists of a channel,
--               Segment and Tracks the list of the tracks of a playlist, Client is what a client gets; Files
--               asks for the next file; Notify is what takes the place of two operations of Stream.
--   Astra       src/AstraHttpClient.cpp: the connection to an origin that sends lists of tracks. Content reads
--               a list, Play asks for the next track, Read has the handlers.
--   Engine      src/Engine.cpp: one round of the main loop, which hands a completion to its handler.
--   Settings    main.cpp and src/Settings.cpp: the settings, and the arguments that change them.
--   Prelude     lists and texts over the native numbers, results, signed numbers.
--
-- State. `World` is the heap of requests with the maps of `Stream` and `Cache`, the state of the resolver,
-- the maps of the playlist modes, and the list of what was handed to the ring. A handler runs in the
-- monad of World/Monad: it reads and writes through addresses, so a client that two lists name is one
-- client, and a use after free is the fault `dangling`. The other faults are an exception or undefined
-- behaviour of C++, each by its kind (Prelude/Result). A block of memory is the bytes that were put into it
-- and its size; a C string must end among those bytes (`string_of`). Loops over a vector read it anew in
-- each round, for the number of elements that it had at first (`each_request`).
--
-- Bounds. Positions in rings are natural numbers taken modulo the size of the ring, as in the code, and
-- stay below it. Lengths read from an `int` are natural numbers; where a negative one is converted to an
-- unsigned type, `to_unsigned` wraps it. The place of a line in a header is narrowed to an `int` of 32 bits
-- (`to_int`). The mark `EMPTY_BUFFER` is a length, so the theorems on rings ask that a buffer is smaller
-- than it (`IsSound`). Four definitions run on fuel: `to_string` has a round for
-- each of the twenty digits of a 64-bit number; `skip_name` has 256 rounds, one for each place that its
-- counter of eight bits can be at, and ends in the fault `endless` if it has not left the name by then;
-- `process_error` has two calls; and `replace_all` has 2 ^ 31 rounds, as many as an `int` has positions.
--
-- Parameters. The settings and the system calls `open` are the record `Env`; the hash of a path is a
-- field of it. What the system answers to `socket`, `connect` and `send` is the record `Dial`. The kernel's
-- answers and the time are arguments of the handlers. The engine takes the resolver as a record of
-- operations (`Resolver`), which `dns_resolver` makes from those of Dns/Fetch. The record `Net` is the time,
-- the servers that can be sent a packet, what `inet_pton` makes of a text, the two tests by regular
-- expressions, and the packets that have come. The record `Tls` is what the TLS library answers.
--
-- Not connected. In playlist mode the engine and the cache call the operations of Hls/Notify where they
-- call those of Stream here, and in Astra mode the engine calls the handlers of Astra/Read.
--
-- Not modelled. Logging and the sockets' setup, which are calls of the system; the resolver's constructor
-- and `checkQueries`, which is not called, and what main.cpp does to start the engine.
pub mod Prelude
pub mod Settings
pub mod Event
pub mod World
pub mod Request
pub mod Headers
pub mod Server
pub mod Stream
pub mod Cache
pub mod Http
pub mod Dns
pub mod Hls
pub mod Astra
pub mod Engine
