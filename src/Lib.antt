-- ===== src/Lib.antt =====
-- OpenDrive Bridge: a local gateway to OpenDrive. This library models the program's core logic.
--
-- The caching gateway (internal/datacache) keeps the user's files on a local disk, takes writes
-- before they have reached OpenDrive, and sends them later. Its parts and their files:
-- * Common and its children hold what the parts share: Boolean tests, lists over the native
--   numbers, Go strings as lists of code points, maps as association lists, sorting.
-- * DataCache/Types is the state: `Object`, the journal and its records, `DataCache`.
-- * DataCache/Journal is journal.go: append, the fold of a record, replay, compaction.
-- * DataCache/Path is `normalisePath` of object.go and `equalFold` of store.go.
-- * DataCache/Index is the index of store.go: `Get`, `forget`, `evictIfNeeded` and the last part of
--   `commit`.
-- * DataCache/Writing is the writer of store.go with `Put`, `Fill` and their commits.
-- * DataCache/Flush is the flusher of writeback.go. `flushOne` is two functions, `flush_begin` up to
--   the call of `Upload` and `flush_end` from its return, since other calls run between.
-- * DataCache/Discard is `Refresh`, `Remove`, `Clear`, `Drain`, `Close`; DataCache/Startup is `Open`;
--   DataCache/Settings is `withDefaults` of datacache.go;
--   DataCache/Status is `Status`, `Unsent` and `ChildrenOf` of store.go.
-- * DataCache/Steps makes a state machine of these: a run is any sequence of steps, so it stands for
--   any interleaving of the calls and the flush workers. DataCache/Moves names the primitive moves
--   that the steps consist of, and DataCache/Trace takes each step apart into them.
-- * DataCache/Accounting, DataCache/Recovery and DataCache/Rules hold the proofs.
--
-- The path cache (internal/cache/pathcache.go) remembers the folder id of a path. PathCache has
-- its state and operations; its children hold the proofs on invalidation, size and lifetime. The
-- loop of `evictLocked` runs on the number of entries, one of which each round takes out.
--
-- The credential store (internal/keystore) keeps the account's credentials in one file.
-- Keystore/Env is the text inside it (`parseEnv`, `renderEnv` and the escapes of env.go),
-- Keystore/Envelope is envelope.go, Keystore/Credentials is the mapping between the fields and an
-- account. AES, the derivation of the key and base64 are the parameter `Crypt`, and `Faithful` is
-- what the Go library promises of them. The lines of `seal` run on the length of the text, of
-- which each round takes 64 characters. The formats of numbers and times are the parameter
-- `Formats`. The rest of Keystore is proofs. The file itself and its checksum are not modelled.
--
-- The client library (pkg/opendrive) judges upstream's answers. Sdk/Errors is errors.go,
-- Sdk/Evidence, Sdk/Classify and Sdk/Resolve are classify.go, Sdk/Call is the retry policy and the
-- loop of `Do` of client.go; the rest of Sdk is proofs. The Go library's JSON, lower case and the
-- cut of a message to 300 bytes are the parameter `Reader`. Codes are natural numbers; a wrapped
-- cause and the printed form of an error are left out, and `diagnosis` names the sentence that is
-- shown. `check` is cut where a call waits for another's probe: the state in which it wakes is an
-- argument. What the rounds of `Do` meet, the network, the renewal of the token and the random
-- delay, is a list of rounds.
--
-- The job engine (internal/jobs) runs uploads and downloads. Jobs/Types is job.go, Jobs/Engine is
-- engine.go with `initialPhase` and `setPhase` of cache.go, Jobs/Submitting is `Submit`,
-- Jobs/Stopping is `Cancel` and `Recover`, Jobs/Rounds is the loop of `run`, Jobs/Backoff the
-- delay between attempts. `run` is two functions, `run_begin` up to the transfer and `run_end`
-- from its return to the sleep, and so is `Cancel`, at its unlock. Jobs/Steps makes a state
-- machine of these, beside the set of the jobs whose worker sleeps: its runs are any sequences of
-- calls, with a new id for a new job and one worker for a job, and without a restart. The loop runs
-- on a list of rounds. Whether a save succeeds, what upstream says
-- of a record and how a transfer ends are arguments; the deletions that are asked for are a list
-- in the state. The rest of Jobs is proofs. Not modelled: the transfers themselves, the speed, the
-- wait for a file to be visible, the stores.
--
-- An upload (pkg/opendrive/upload.go) is four requests. Upload/Types holds its parameters, answers
-- and the bodies of the requests, Upload/Chunks is `sendChunks` with `sendChunkResuming` and
-- `serverOffset`, Upload/Pipeline is `Upload`, `transfer` and `reclaimOrphan` with the cache of
-- paths. The calls of the client are the parameter `Calls`, over a state of upstream that the
-- proofs look at through one function: the bytes that are there (`Assembles`, `Upstream`) or the
-- ids of the files (`Ledger`, where a request that fails may have been carried out or not). The chunk loop runs on the number of bytes of its source and one
-- more; each round that goes on takes a byte at least. `Tools` holds MD5, zlib and the judgement
-- of a name. The rest of Upload is proofs.
--
-- A download (pkg/opendrive/download.go) is Download: `Download` and its callback. Download/Files
-- is `DownloadFile`, with the local file before and after. The stream, the probe, JSON, MD5, lower
-- case and the numbers in headers are the parameter `Remote`; `Serves` is what upstream promises
-- of a stream. A download without a result has a blank one. Download/Resume, Download/Runs and
-- Download/Verified are proofs.
--
-- Paths are Paths: `NormalizeFolderPath` and `ParentPath` of pkg/opendrive/path.go, `ValidateName`
-- of types.go, `normalisePath`, `splitPath`, `joinPath` and `invalidateSubtree` of
-- internal/server/paths.go, `checkRemotePath` of internal/cli/remotepath.go. `path.Clean` is
-- modelled for the paths that it is called on: rooted, and without `..`. Paths/Segments,
-- Paths/Canonical, Paths/Agreement and Paths/Repeating are proofs.
--
-- Paths/Resolving is `ResolvePath` and `EnsurePath`, with `IDByPath` and `Create` of
-- pkg/opendrive/folder.go, over the state of upstream and the cache of paths. `EnsurePath` runs on
-- the length of the path and one more, since each round goes on with the parent, which is shorter.
-- The two requests are the parameter `FolderCalls`. Paths/Parents and Paths/Ensured are proofs.
--
-- Go values: an `int64` that counts bytes or nanoseconds is a plain number; a time is its Unix
-- nanoseconds with 0 for the zero time; a watermark is in percent, and the rounding of the float
-- product is not modelled. A string is its code points. Go's sort is not stable, and the model's is
-- one of the orders that it may give.
--
-- The outside: `Digest` holds the two hashes as parameters. The journal's disk answers are a list
-- in the state, in which each append is taken, refused, or written and not flushed. A commit has a
-- place at which the file system stops it, if it does. A read and an upload are told whether
-- `os.Open` succeeds. `Upload` returns any of its results. Where a function takes the lock twice with
-- I/O between, it is one step, except `flushOne`; so a race inside `commit`, `setState`, `forget` and
-- the eviction is not modelled, nor a crash inside them: `commit` renames the file, appends to the
-- journal and puts the object into the index in one step.
--
-- Fuel: the loop of `normalisePath` runs on the length of the text, which each round shortens.
--
-- Not modelled: JSON, the file lock, the mount table, logging, goroutines and channels as such, the
-- waits of `Flush`, `Remove` and `Drain`, the rate of hits and the durability note of a report,
-- `UploadFile`, the archive of folders, the reports of progress, and the rest of the client library
-- (sign-in, folders, files, sharing) and of the program.
pub mod Common
pub mod DataCache
pub mod Download
pub mod Jobs
pub mod Keystore
pub mod PathCache
pub mod Paths
pub mod Sdk
pub mod Upload
