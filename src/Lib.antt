-- ===== src/Lib.antt =====
-- RDAPify: the way of a query from a URL to a validated RDAP document.
--
-- The program is a Rust workspace (crates/) that asks RDAP registries over HTTPS. A call goes through
-- these parts, each modelled in the files named after it (of the files that stand without a path, those
-- of Security are in crates/rdap-security/src and those of Core in crates/rdap-core/src):
--
--   Security/Guard.antt     SsrfGuard of crates/rdap-security/src/lib.rs, the check on a URL string
--   Security/Ip.antt        ip.rs, the classifiers of addresses
--   Security/Url.antt       url.rs and dns.rs, the checks on a parsed URL and on resolved addresses
--   Security/Resolver.antt  resolver.rs, the resolver that the HTTP client connects through
--   Security/Egress.antt    secure_request and secure_fetch of lib.rs, redirect.rs, limits.rs,
--                           content_type.rs
--   Security/Http.antt      http_policy.rs, and what lies outside: `url`, DNS, `reqwest`
--   Core/Breaker.antt       crates/rdap-core/src/circuit_breaker.rs
--   Core/ErrorClass.antt    error_class.rs
--   Core/Retry.antt         the retry utilities at the end of fetcher.rs
--   Core/Validation.antt    validation/*.rs, the gate on the bytes of a response
--   Core/Fetcher/*.antt     fetcher.rs: Config (FetcherConfig), Attempt (send_validated,
--                           do_fetch_with_headers, the permits), Retries (fetch_with_retry), Call (fetch,
--                           fetch_with_cache_hint, with_full_dependencies)
--   Core/Normalizer.antt    normalizer.rs, from a JSON document to a response
--   Cache.antt              crates/rdap-cache/src/lib.rs, the response cache; Waiting is await_refresh, with
--                           the steps of the other tasks, Entries the counts, Refines the table that
--                           the cache stands for
--   Bootstrap/*.antt        crates/rdap-bootstrap/src/lib.rs: Data (the files and lookups), Resolver (the
--                           downloads, their cache, the queries)
--   Client.antt             crates/rdapify-client/src/lib.rs, the client: Lookup (fetch_with_cache and
--                           background_refresh), Queries (domain, ip, asn, nameserver, entity),
--                           Availability (domain_available; Many is domain_available_batch), Session
--                           (any sequence of them), Streams (the streams, with the events of
--                           crates/rdap-stream/src/lib.rs), Diagnostics (the counts of the cache)
--   Batch.antt              crates/rdap-batch/src/lib.rs, one query of a batch, the categories of errors, and
--                           run_stream, the stream of the results of many
--   Service.antt            crates/rdap-service/src: error.rs, handlers/rdap.rs, handlers/batch.rs
--   Config/*.antt           crates/rdap-config/src: the settings, and how they are loaded and validated
--   RateLimit.antt          crates/rdap-rate-limit/src/lib.rs
--   Metrics/Redact.antt     crates/rdap-metrics/src/redact.rs, the redaction for log lines
--   Types/*.antt            crates/rdap-types/src: Error (error.rs), Common (common.rs), Response (the
--                           responses); Json is what serde_json offers of a parsed value
--   Net.antt, Base.antt     std::net and the rest of Rust's standard library, as far as it is used
--
-- Files below these hold what is proved of them. Definitions keep the names of the source in snake case;
-- a state is a record, and a `&mut self` or shared-state function takes the state and returns it.
--
-- The network, the `url` crate, `serde_json`, `rand`, the clocks and the semaphores' being open are
-- arguments (Environment, World): any function may stand for them, and it may answer by all that has
-- happened so far. So are the evictions of moka, of breakers (holds) and of responses (keeps), and the
-- approximate length by which the refreshes in flight are capped (in_flight_len). What a call does is
-- written down in two logs, newest first: the trace of lookups and requests, and the log of permits,
-- attempts and sleeps. One call to the fetcher runs at a time; what tasks that share a breaker may do
-- between two of its operations is in Core/Breaker/Calls.antt, where any sequence of operations is
-- allowed.
--
-- Loops: the walk over a JSON tree runs on fuel, one more than the nodes of the tree, each of which it
-- takes once; the redirect loop recurses on the redirects left, the retry loop on the attempts left, as
-- the counters of the source bound them. Times are milliseconds; u64 and u32 counters keep their
-- wrap-around or saturation where the source reaches it.
--
-- A query of the client finds its registry by the bootstrap, whose downloads go through the egress
-- pipeline, looks the answer up in the cache, or fetches it, keeps it, and has it normalized. Times are
-- nanoseconds in the cache, the client and the limiter. A refresh in the background is a task in the
-- client's state that a later step runs to its end; what other tasks do to the cache while a caller waits
-- for another's refresh is an argument of the client (await_refresh). The loop of the limiter's acquire
-- runs on fuel, and has no bound of its own: other tasks, an argument, may take the budget during each of
-- its sleeps. The batch of domain_available runs on fuel for its chunks and for the tasks of each, whose
-- counts are enough; how each task ends, a panic included, and the order in which they end are arguments.
-- So are, for run_stream, the result of the query at each place and the two adapters of the `futures`
-- crate that put the results in an order; and, for a channel, which sends find its receiver and how much
-- that takes. A panic of the code's own, and a channel without room, are `none`. The floating point
-- numbers of the settings are NaN, the infinities and the multiples of 2^-1074.
--
-- Not modelled: metrics, tracing and sampling, which read values and change none; HTTP headers and TLS
-- settings of the client; text for people in errors; waiting for another caller's download of a bootstrap
-- file; the reports of progress of crates/rdap-batch; storage, router, command line and language
-- bindings.
pub mod Base
pub mod Net
pub mod Types
pub mod Security
pub mod Core
pub mod Cache
pub mod Bootstrap
pub mod RateLimit
pub mod Metrics
pub mod Client
pub mod Batch
pub mod Config
pub mod Service
