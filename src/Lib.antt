-- ===== src/Lib.antt =====
-- Verification library of the SNS media list service, a program that lists the media of a post on
-- Instagram or X and streams them to the browser.
--
-- The program. A request passes the attempt limiter and the concurrency limiter; gallery-dl, run
-- behind a CONNECT proxy, extracts the media of the post; each media gets private tokens for its
-- download and its preview. A token is exchanged for a stream: the media client validates and pins
-- the media's host, follows redirects, checks the response and yields a bounded body, which a route
-- forwards, resuming it once where it was truncated. Previews that have to be generated come from
-- FFmpeg by way of a cache, in which requests for the same token share one generation. An MCP
-- server offers the extraction to tools, with its own attempts and a registry of active requests.
--
-- The files, and the code that each is about:
--   Limits (Attempts, Requests, Identity)  src/sns_media_list/api/limits.py
--   Errors                                 src/sns_media_list/errors.py
--   Models, Tokens                         src/sns_media_list/models.py, security/tokens.py
--   Thumbnails (Cache, Coordinator)        src/sns_media_list/services/thumbnail_cache.py
--   Thumbnails.Jpeg                        src/sns_media_list/services/thumbnail.py
--   Media (Headers, Stream, Body, Policy, Fetch, Resume, Forward, Chunks)
--                                          src/sns_media_list/network/media_client.py, and
--                                          the request headers of extractor/normalizer.py
--   Proxy                                  src/sns_media_list/network/connect_proxy.py, dns.py
--   Normalizer (Filenames, Variants, Extraction)
--                                          src/sns_media_list/extractor/normalizer.py
--   Urls                                   src/sns_media_list/url_validation.py
--   Extraction                             src/sns_media_list/services/extraction_service.py
--   Routes (Reasons, Cleanup, Download)    _stream_media of src/sns_media_list/api/routes.py
--   Registry                               McpRequestRegistry of src/sns_media_list/mcp/middleware.py
--   Text, Int, Dict, Python, Prelude       what the source uses of Python: str, int, dict, JSON
--                                          values
-- The modules below a component, and the Examples beside it, hold its proofs and its test runs.
--
-- How the state corresponds. An object is a record with the fields of its `__init__`; a method is a
-- function of the source's name from the state to the state after it and its result. A lock's block
-- is one step, so an interleaving is a sequence of calls. A raised `AppError` is `err`; where code
-- lets other exceptions through, the result has a case for them. A dict is an association list in
-- insertion order, text is a list of code points, bytes are a list of numbers. Numbers are natural,
-- but the sizes, bitrates and ranks that the extractor gives, which are integers that can be negative;
-- times are readings of the clock, in microseconds for the attempts, given as arguments. The
-- subtraction of the naturals stops at 0; where the code can go below, the definition says how.
--
-- Parameters. `ipaddress`, `urllib.parse`, `str.isdigit`, the resolver, the random tokens, the
-- digest of an MCP request, what pydantic accepts as a text or an HTTP URL, the bytes that a
-- connection delivers and when, and the way each awaited operation ends, or is interrupted by a
-- deadline or a client that leaves, are arguments of the definitions that use them, and the
-- theorems hold for all of them.
--
-- Loops. `fetch_loop` recurs on the redirects left, of which `max_redirects + 1` are enough, as in
-- the source. `jpeg_dimensions` has the length of the bytes as fuel and is proved to end with it.
-- `iter_plain` has fuel for its reads, of which each takes a byte or is the last: one more than the
-- bytes is proved to be enough, as it is for the chunks and the trailers of `iter_chunked`, of which
-- each takes a line; `read_pieces` has the bytes of its chunk. The loop of a download has fuel for
-- two iterators, and is proved to need no more. The loops that evict entries from the thumbnail
-- cache have a round for each entry, and the theorems on what is stored show that these are enough.
--
-- Not modelled. The subprocesses of gallery-dl and FFmpeg, sockets, TLS and the closing of
-- connections, logging, the web page and the deployment are I/O. FastAPI, Starlette, pydantic and
-- the MCP library are third-party. The run of gallery-dl with its records, the routes that are not
-- streams, the relay of the proxy and the configuration are left for later modules.
pub mod Prelude
pub mod Dict
pub mod Python
pub mod Text
pub mod Int
pub mod Errors
pub mod Limits
pub mod Thumbnails
pub mod Models
pub mod Tokens
pub mod Media
pub mod Registry
pub mod Normalizer
pub mod Proxy
pub mod Routes
pub mod Urls
pub mod Extraction
