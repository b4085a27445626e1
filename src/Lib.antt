-- ===== src/Lib.antt =====
-- Cachau: a function cache for Python, in src/cachau/.
--
-- `cachau` decorates a function (decorator.py). A call builds a key from the namespace, the code
-- fingerprint and a digest of the arguments, takes the fingerprints of the declared dependencies
-- (dependencies.py), and serves the stored value where the store (backend.py, memory.py,
-- disk.py) has one that is fresh. Otherwise the calls of one key are made to wait for one another,
-- within the process (flight.py) and between processes (interprocess.py), and the one that computes
-- commits its value, for which an LRU budget (policy.py) may evict others.
--
-- Prelude: names of the libraries, lists, ordered dictionaries, and actions that may raise (Exec),
-- with two ways to reason on all runs of one: a relation that every step keeps, and what is counted.
-- Policy: policy.py, `LRUBudget`. Its state is the limit and the sizes, least recent first.
-- Backend, Memory: backend.py, and memory.py's `MemoryBackend` over an ordered dictionary.
-- Disk: disk.py, `DiskBackend`. The file system is a parameter (`Files`) whose calls may fail, and so are
-- json, pickle and sha256 (`Codec`); the format of the files, the validation of what is read and every
-- operation are definitions. JSON numbers are natural numbers, floats counted in microseconds.
-- Dependencies: dependencies.py, the descriptors and their fingerprints in a world that is read at one
-- moment (Descriptors), the labels of a declaration, the collection and comparison of fingerprints. The
-- wrapper knows a dependency by its label.
-- Fingerprint: fingerprint.py. A code object is a tree with its constants (Code), a function is an object
-- of a heap, and `_fingerprint` is an action on the set `seen` whose result is what the hasher was fed
-- (Functions). Bindings and the modules that use it have the text of closures and defaults. Unwrap is
-- `unwrap_function`; Chains and Globals are the search for referenced functions.
-- sha256, `repr`, `dis` and the module system are parameters.
-- Flight: flight.py, `KeyedLocks`, one record per key in use; Flight.Threads is its step relation over
-- any number of threads, each step one that others may come between, with exceptions that strike while a
-- thread waits, and Flight.Interrupts adds those at every other point of `holding`.
-- Interprocess: interprocess.py, `ProcessLock` and `coordinate` over an interface of lock files.
-- Control: decorator.py, the attributes of `CacheControl`, its tallies and its settings.
-- Wrapper: decorator.py, the function that `_wrap` returns, with `serve_if_fresh`,
-- `_classify_and_compute`, `_commit_result` and the flights. Each is an action on the record `State`,
-- which holds the attributes of `CacheControl`, the variables of `_wrap` and the outside world; the
-- wrapped function, the clocks, the store, digests and lock files are parameters (`Env`) that may do
-- anything to the world, raise included. The modules below Wrapper hold the theorems.
-- Settings: durations.py and sizes.py, the parsers of lifetimes and limits, and `estimate_size` over a heap
-- of objects (Estimate), with what an object counts and holds said apart from it (Estimate.Parts). What
-- a setting reads as is said apart from the parser too (Durations.Outcome). Python's reading of a numeral
-- as a float is a parameter; floats have no rounding here, but their range.
-- Decoration: decorator.py, `_wrap` before its inner functions: the checks of the options in their
-- order, the choice of the store, the purge of entries of older code, and the budget that is filled
-- again from the store.
-- Explanation, Stats: explanation.py and stats.py, the records that are handed out.
-- Observation: decorator.py, `explain`, `invalidate`, `clear`, `inspect`, `stats` and `profile`, with
-- inspection.py and `measure` of profile.py.
-- Tokens: tokens.py, `array_token` and the pruner of its memo, with a step relation for the accesses of
-- many threads. Profile: profile.py, `diagnose`. Testing: testing.py, the two assertions.
-- Keys: keys.py, the framing of what is hashed, `_feed`, `_feed_data_object`, `digest_arguments` and
-- `digest_custom_key`; sha256 is a parameter, and a scalar is known by the text that is hashed for it, an
-- array or a frame by what its library reports of it. Where two digests are
-- compared, the results name a collision of the hash as the other outcome.
-- CallKey: decorator.py, the key of a call, where Fingerprint and Keys meet: `build_key` with the function's
-- fingerprint. The modules on Wrapper and Decoration take both digests from the outside world.
-- Scenario: a concrete function with its store, on which the theorems are run.
--
-- Instants and durations are microseconds and probabilities units of 2^-53, as natural numbers.
-- Some loops take fuel. The chunks of a file's header are read in at most `header_rounds` rounds, which
-- Disk.Prefix shows to be enough. `coordinate` takes a number of rounds that its caller gives; when it
-- runs out the model raises `out_of_fuel`, which no code catches. Interprocess.Bounded has how many
-- rounds are enough; the theorems on the wrapper hold for every number of them. `fingerprint` and
-- `unwrap` take the depth of their recursion and the rounds of their loop; Fingerprint.Termination and
-- Fingerprint.Unwrap have how many are enough. A file is read for its digest in as many rounds as it
-- has bytes, and one more, since each reads a byte at least.
--
-- Not modelled: the binding of arguments in keys.py, which `inspect` makes, the sizes of arrays in
-- profile.py, text renderings, and Python's signatures and decorators. Of a code object `_feed_code` reads
-- neither the argument counts nor the flags, so the results on fingerprints say nothing of them. Calls of
-- the wrapper are modelled one at a time: what other threads and processes do to the store shows in what
-- the outside world answers.
pub mod Prelude
pub mod Policy
pub mod Backend
pub mod Memory
pub mod Dependencies
pub mod Flight
pub mod Interprocess
pub mod Control
pub mod Wrapper
pub mod CallKey
pub mod Decoration
pub mod Disk
pub mod Explanation
pub mod Fingerprint
pub mod Keys
pub mod Observation
pub mod Profile
pub mod Scenario
pub mod Settings
pub mod Stats
pub mod Testing
pub mod Tokens
