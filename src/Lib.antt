-- ===== src/Lib.antt =====
-- Verification of the AgentPulse bridge, the program that hooks into Claude Code, turns its hook
-- calls into events of a closed set, and sends them to a relay.
--
-- The program's parts and how they work together. `agentpulse hook` runs once per hook call: it
-- classifies the call (internal/classify), asks the watch list whether the event may be kept
-- (internal/watch) and appends it to the spool (internal/spool). `agentpulse flush` drains the
-- spool, leaves out events that are out of date (internal/coalesce), posts the rest in chunks
-- (internal/relay), and commits what is left to be sent. Between drain and commit other processes
-- append to the spool; a commit must not lose what they wrote. `agentpulse pair` and `unpair` put the
-- bridge's hooks into Claude Code's settings file and take them out (internal/hooks), and
-- `agentpulse doctor` reads which of them are there.
--
-- Which file models which part:
--   Base           lists, text, association lists and Boolean tests over the native numbers.
--   Spool          internal/spool/spool.go. Spool.Lines has splitLines and countLines, Spool.Queue
--                  has Append, Depth, Drain and rewrite as `append`, `depth`, `drain`, `rewrite`,
--                  Spool.Io the critical section: a state monad over the file's content in which
--                  every system call may fail.
--   Relay          internal/relay/chunk.go, client.go, errors.go, types.go. Relay.Chunk has
--                  nextChunk, Relay.Detail what is read from a refusal, Relay.Client postChunk and
--                  PostEvents as `post_chunk` and `post_events`.
--   Coalesce       internal/coalesce/coalesce.go: DropStaleActivity as `drop_stale_activity`.
--   Watch          internal/watch/watch.go: ApplyRelayList, Decide and Version.
--   Classify       internal/classify: Classify.Event, Classify.State, Classify.Input and
--                  Classify.Names have the data types and the text functions, Classify.Runners the
--                  runner table with internal/cmdnorm, Classify.Build buildEvent and the
--                  suppression of activity events, Classify.Handlers the handlers and Classify as
--                  `classify`. A pointer to a chain's state is a `ChainRef`, read by `get_chain`
--                  and written by `set_chain`. The proofs stand in Classify.Isolation, Cap, Pairing
--                  and Stamps, with Classify.Handlers.Frame for what a handler leaves alone.
--                  Classify.Results has verify_result.go, the parsers by their names and
--                  ParseResult as `parse_result`, with its proofs in Counts, Digits, Sound and Runs.
--   Flush          cmd/agentpulse/flush.go and flush_subagent.go: Flush.Run has runFlush from the
--                  drained batch to what it commits and saves as `flush_batch`, Flush.Loop its
--                  loop as `flush_loop`, Flush.Waits the waits and their bounds, Flush.Subagents
--                  splitSubagentRejections and stripSubagents, Flush.Types the record of
--                  internal/state/state.go.
--   Hooks          internal/hooks and cmd/agentpulse/settings.go: Hooks.Words has splitCommandWords,
--                  shellQuoteIfNeeded and hookCommand, Hooks.Owner owner.go, Hooks.Merge mergeEvent,
--                  filterOwnedHooks and the inspection of installed.go, Hooks.Merge.Events the loops
--                  over the events, Hooks.Scan scanObject, Hooks.Splice spliceTopLevelKey,
--                  Hooks.Diff diff.go, Hooks.Plan plan, spliceHooksInto, buildFromScratch and
--                  hookEntries. An orderedRawObject is the list of its members in order.
--   Hook           cmd/agentpulse/hook_classify.go: classifyAndSpool as `classify_and_spool`, from
--                  the parsed document to the files it leaves; Hook.Scratch internal/scratch.
--   Pair           internal/pair: Pair.Poll has Poll as `run_poll`, with its loop as `poll`, and
--                  Pair.Machine sanitizeMachineName.
--   Tests          runs at concrete inputs.
--
-- Parameters. What the program calls and does not define is a parameter: encoding/json (`Codec`,
-- `FieldCodec`, `valid`, `decode`), the HTTP exchange of a round (`send`), the expiry of a context
-- (`expired`), Go's regexp (`Regexp`), SHA-256, random ids, the text form of times, and the walk
-- through the file system for a project's root (`Env`). The handlers take the parsers of
-- verify_result.go as `parse_result`, which Hook fills. For the settings file encoding/json is
-- `Json`, whose values are valid by themselves, so that writing one cannot fail, and `JsonLaws`
-- says what reading gives of what was written; its decoder is `Decoder`, `IsDecoder` says where a
-- token ends, and the `Codec` of Hooks.Plan holds the two with what formats a value. What else a
-- hook call reads, and which of its calls fail, is `Surroundings`. A turn of flush's loop, and one
-- of Poll's, takes a `Turn`: the context, the exchanges, the clock and the sleeps of that turn.
--
-- Numbers. An instant is a natural number of nanoseconds, with 0 for Go's zero time. strconv.Atoi
-- is `atoi`, which fails outside of int64. A Retry-After is kept as the 64 bits of its Duration,
-- wrapped as the code's multiplication wraps, and the sums of a runner's counts and of the events
-- that the relay accepted wrap at 64 bits (Base.Ints); a watch list's version is signed.
--
-- Fuel. PostEvents' loop runs on one more unit than it has events, since each round takes one
-- event at least; flush's loop takes its fuel from the caller, and needs one turn more than there
-- are until its context is over, or one more than its lines, those that carry `subagent` counted
-- twice, and its eight waits, where that key stands as a field alone; the loop that strips a
-- command line on one more than its characters, since each round but the last takes one at least;
-- Poll's loop on one more than the intervals until the code expires; scanObject's loop on one more
-- than the text's bytes, since each turn takes one at least. Every other loop is structural.
--
-- Not modelled: terminal output and flags of the commands, the relay's pairing calls, the reading
-- and writing of the settings file and the positions of its errors, the scrubber, the doctor, the
-- secret stores, log rotation and the operating system calls of the small packages
-- (internal/atomicfile, lockfile, logging, xdgpaths, keepawake). An advisory lock is taken to make
-- a critical section atomic.
pub mod Base
pub mod Spool
pub mod Relay
pub mod Coalesce
pub mod Watch
pub mod Classify
pub mod Flush
pub mod Hooks
pub mod Hook
pub mod Pair
mod Tests
