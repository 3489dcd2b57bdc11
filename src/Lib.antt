-- ===== src/Lib.antt =====
-- cadish is an HTTP cache and reverse proxy: a request is classified, looked up in a two-tier cache (RAM and
-- disk) whose freshness is kept in an index beside it, rate-limited by key, and on a miss fetched from a pool of
-- backends chosen by a hash ring and their health. This library models those parts and proves what they promise.
--
-- The parts, and where they are modelled:
--   Prelude        names of the libraries passed on, Boolean tests, lists, integers, Go maps as association
--                  lists (Dict), the bytes of a text.
--   Time           instants and durations: integers, in nanoseconds; 0 is the zero time of Go.
--   Cache.Meta     internal/cache/meta.go: ObjectMeta, EffectiveStatus.
--   Cache.Shard    internal/cache/shard.go: shardCount, shardIndex, shardCaps; the FNV hash of the keys.
--   Cache.Ring     container/list as the caches use it, a list of keys.
--   Cache.Ram      internal/cache/ram.go: one shard (Get, Delete, Reset, and commit with its CLOCK loop). Sweep
--                  and Commit hold the lemmas of the loop, Tier the tier with its writers and the in-flight
--                  budget, Writers every interleaving of calls as a step relation, Reads and WholeWrite what the
--                  lookups give, AsTier the tier as an instance of the interface, Promise the summary.
--   Cache.Tier     internal/cache/cache.go: the interface, as a record of operations and laws.
--   Cache.Router   internal/cache/router.go: routing, lookups, whole writes with the cross-tier deduplication.
--                  It is generic in its two tiers, as the source is.
--   Cache.Disk     internal/cache/disk.go: one shard of the disk tier with its blobs. Agree is its invariant, Room
--                  the eviction loop, Commit and Reads what the methods leave, Restart the index written and
--                  loaded, AsTier the shard as an instance of the interface.
--   Freshness      internal/server/freshness.go: store, classify, staleWithin, bans, hit-for-miss, the sweep.
--   RateLimit      internal/ratelimit/limiter.go: Allow, the eviction of a full shard, the sweep,
--                  RetryAfterSeconds. Whole is about buckets of whole tokens, Runs are sequences of requests and
--                  sweeps, Conformance what they let in, Eviction is about a full shard.
--   Lb.Health      internal/lb/health.go: the health state machine.
--   Lb.Ring        internal/lb/ring.go: the consistent-hash ring. Walk is about its lookups and Start about where they
--                  begin, Build is newRing,
--                  with the search for a free point in Build.Nudge, the points of each backend in Build.Shares and the ring
--                  that comes out in Build.Valid.
--   Lb.Pool        internal/lb/upstream.go: one backend's capacity, passive ejection and outcome of a fetch, the
--                  selection by policy, and the failover loop of Fetch, which runs on fuel, a round for each
--                  backend and one more: a round never picks a backend that was tried.
--   Pipeline.Glob  internal/pipeline/glob.go: path sets with their exact patterns, trie of prefixes and globs. Wild
--                  says what a pattern means, Segments and Decides compare the compiled glob with it, Trie the
--                  trie, Sets the whole set.
--   Pipeline.Query internal/pipeline/cachekey.go: the query of a cache key. Escape reads escaped bytes back, Injective
--                  compares two written queries, Names a set of parameter names with what its patterns mean.
--   Origin         internal/origin/origin.go: what an origin answers. Chain is the fall-through chain of
--                  internal/origin/chain/chain.go: Verdict what it answers, Writes a request with a body, Bodies
--                  who closes what was opened.
--   Server.Range   internal/server/range.go: the parser of Range headers. Forms are the headers that it accepts,
--                  Bounds what an accepted range is.
--   Server.Coalesce internal/server/coalesce.go: one fetch for a herd of requests. Steps are the interleavings of
--                  serveMiss in internal/server/handler.go.
--   Tests          runs at fixed inputs, and each theorem at one input.
--
-- How code becomes definitions. A method takes the state and returns the new one, with its result beside it; a
-- lock makes a method one step, and where calls interleave (the writers of the RAM tier) the steps are a relation.
-- int64 counters of bytes are natural numbers or integers without bound: they count bytes of memory. A map is an
-- association list that holds a key at most once. A pointer to a list element is the key that it holds. A call
-- that would fault is `none`. The CLOCK loop runs on fuel, two rounds for each entry and one more test: a round
-- takes a node out of the ring or clears a reference bit, and nothing sets one under the lock. The eviction loop
-- of the disk tier runs on fuel, one round for each entry and one test more. The search of newRing for a free
-- point runs on fuel too, one try more than there are points taken. The file system is a parameter: the path of a
-- key's blob (a hash, whose paths differ for different keys), and which unlinks, renames and opens go through. The
-- rate limiter's float64 is a parameter: a type with the operations that it uses, of which the theorem needs that
-- whole numbers up to 2^53 are exact. Sums of durations and the round-robin cursor wrap as in the source. The
-- ring's hash, the limiter's seeded hash and the patterns of bans are parameters, since they come from Go's
-- libraries; so is what a backend's origin answers. An origin of a chain is what it says when the loop comes to
-- it, with the context's state at that moment; a live body is the number of its handle. Patterns, paths and queries are
-- bytes, a Range header is its code points. In the coalescer a channel is a cell of a heap, and closing it twice
-- is a fault.
--
-- What is not modelled: the split of the disk tier into shards, its writers and its flush loop, statistics,
-- logging, the rest of the HTTP handler, the configuration language and its compiler, host sets and the other
-- matchers, the edge and Kubernetes translations, the HTTP and S3 clients, and TLS. Background loops appear only
-- as the steps that they run.
pub mod Prelude
pub mod Time
pub mod Cache
pub mod Freshness
pub mod RateLimit
pub mod Lb
pub mod Tests
pub mod Pipeline
pub mod Origin
pub mod Server
