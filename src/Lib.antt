-- ===== src/Lib.antt =====
-- retrace intercepts calls of library functions in a running program and rewrites, logs or
-- denies them as a JSON configuration says. This library models the parts of it that decide:
-- which script applies to a call, and how the supervised program talks to the daemon.
--
-- Parts and how they interact:
--   Frame.antt           src/supervisor/protocol.c and protocol.h: the 12-byte header of the
--                        supervisor protocol. `frame_encode`, `frame_decode` and `msg_name` are
--                        `retrace_rpc_frame_encode`, `retrace_rpc_frame_decode` and
--                        `retrace_rpc_msg_name`.
--   AgentRing.antt       src/supervisor/agent_ring.c: the ring of the frames' payloads that wait
--                        for the daemon. `push_copy`, `push_heap`, `peek` and `pop` are the
--                        functions `agent_ring_...`; the model lists the blocks that are freed.
--   ConfigCache.antt     src/core/config_cache.c: the hashed index of the scripts by function name.
--   CallerCache.antt     src/core/caller_cache.c: the 256 last answers of `dladdr`.
--   CallerMatch.antt     src/core/caller_match.c: the matchers on the address of a caller. They use
--                        the caller cache.
--   ScriptResolver.antt  src/core/script_resolver.c: the choice of the script of a call. It uses
--                        the configuration cache and the matchers.
--   SlotTable.antt       the tables by function name of the two fault-injection actions.
--   CallCountLimit.antt  src/core/actions/call_count_limit.c: `call_count_limit` is the action.
--   FailFirst.antt       src/core/actions/fail_first.c: `fail_first` is the action.
--   LogRing.antt         src/core/log_ring.c: the ring of log entries of a thread. `push`, `drain`,
--                        `ring_walk` and `total_dropped` are the functions `retrace_log_ring_...`.
--                        Interleaving.antt has the same push and drain as steps of two threads, at
--                        their accesses of the ring; Threads.antt has `retrace_log_ring_get` and the
--                        registry of the rings.
--   CallHash.antt        src/core/call_hash.c: the running hash of each thread's calls.
--   DriftHits.antt       tools/retraced/drift_hits.c: which operations that the kernel lane sees were
--                        not claimed by the libc lane. `claim`, `observe` and `reset` are
--                        `retrace_drift_claim`, `retrace_drift_observe` and
--                        `retrace_drift_hits_reset`.
--   Registry.antt        tools/retraced/registry.c: the daemon's table of agents. `hello`, `find`,
--                        `bye`, `heartbeat`, `sweep` and `link_parent` are the functions
--                        `retraced_registry_...`.
--   Glob.antt            the backtracking loop that the two glob matchers of the program share, with
--                        what a step does at a byte as a parameter.
--   FilterDsl.antt       src/core/filter_dsl.c: the filter expressions. `GlobStep.glob_match` is
--                        `retrace_filter_glob_match`; `Parsing.compile` is
--                        `retrace_filter_compile`, with a function for each `parse_...`;
--                        `Eval.eval_resolved` and `Eval.eval` are `retrace_filter_eval_resolved` and
--                        `retrace_filter_eval`. It uses the caller cache.
--   Redact.antt          src/core/redact.c: `set_patterns`, `set_csv`, `active` and `apply` are the
--                        functions `retrace_redact_...`.
--   Lcs.antt             tools/trace-diff/lcs.c and the order diff of tools/trace-diff/diff.c.
--   PathSet.antt         src/core/actions/sandbox.c: the compiled set of a list of paths. `path_matches`,
--                        `first_comp_hash`, `entry_bucket` and `path_set_build` are named as in the
--                        source; `lookup` and `walk` are the two ends of `list_contains`.
--   Sandbox.antt         src/core/actions/sandbox.c: the rest of the action. `list_contains`,
--                        `call_is_write`, `classes_deny`, `deny_ret` and `ia_sandbox` are named as in
--                        the source, `judge` is the decision and `outcome` what it does to the call.
--                        SetCache.antt keeps eight of the compiled sets; Rules.antt has the rules of
--                        the action apart from the code.
--   Sockaddr.antt        src/core/sockaddr_inspect.c: `inspect`, and `sockaddr_match` in Match.antt, are
--                        `retrace_sockaddr_inspect` and `retrace_sockaddr_match`.
--   AddrDeny.antt        src/core/actions/addr_deny.c: `ia_addr_deny`. It uses the two functions of
--                        Sockaddr.antt.
--   Normalize.antt       tools/trace-diff/normalize.c: `normalize_from_trace`, `find` and
--                        `normalize_call_sequence`, the first and the last named as in the source,
--                        and `find` for `normalize_find`.
--   TraceDiff.antt       tools/trace-diff/threshold.c and `print_func_diff` and `print_all_diffs` of
--                        tools/trace-diff/diff.c, on the summaries of Normalize.antt.
--   Json.antt            the calls of the parson library, as a record that the models take.
--   Prelude.antt         shared names, lists, C strings, integers, bit masks and cyclic windows.
--
-- Bytes and machine words are natural numbers, with the wrap-around written out. A C string is
-- the list of its bytes without the terminator. Memory that a function allocates is an argument
-- that says whether the allocation succeeds. The order of plain `char` is an argument, because it
-- is the platform's, and so are the comparisons of doubles. A signed overflow, or a use of freed memory
-- in the filter compiler, is an outcome of its own; the log rings list what is allocated.
--
-- Bounds and fuel: the walks of the configuration cache (`probe`, `find_empty`) take as fuel the
-- size of the bucket table, which is enough because a table always has an empty bucket; the
-- theorems on `lookup` state that the walk ends. `table_size` has the fuel 64; seven doublings of
-- 8 reach four times the 256 entries. A drain of the log ring, and the freeing of its texts, take
-- the mask as fuel, which is the most entries that the ring queues; the theorem on `drain` states
-- that it ends. The glob loop takes the length of the text and the pattern, each with one more,
-- multiplied: a retry gives up a byte of the text and pays for the pattern. The descent of the
-- filter parser takes the length of the text for its depth and for each of its loops. The loops of
-- the redaction take the length of the text. The numerals of an address take as fuel the digits of the
-- largest: three for a byte, four for a group of 16 bits.
--
-- Not modelled: the interception itself (assembly trampolines, dlsym tables, ptrace), printing
-- and logging, sockets, files and threads, the JSON library and the OTLP library, and the static
-- tables that describe the C library; and the run of a script's actions (src/core/engine.c), the
-- daemon's frame handling and journal (tools/retraced), and the correlation, profiling and conversion
-- tools. Mutexes are left out: an operation that holds one is a step. In the interleaving an access of the ring takes effect at once,
-- as the acquire and release order of the two indices ensures for the entries. The reports and warnings
-- of the actions are left out, and the release of a text that an action has put into a call.
pub mod AddrDeny
pub mod AgentRing
pub mod CallCountLimit
pub mod CallHash
pub mod CallerCache
pub mod CallerMatch
pub mod ConfigCache
pub mod DriftHits
pub mod FailFirst
pub mod FilterDsl
pub mod Frame
pub mod Glob
pub mod Json
pub mod Lcs
pub mod LogRing
pub mod Normalize
pub mod PathSet
pub mod Prelude
pub mod Redact
pub mod Registry
pub mod Sandbox
pub mod ScriptResolver
pub mod SlotTable
pub mod Sockaddr
pub mod TraceDiff
