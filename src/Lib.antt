-- ===== src/Lib.antt =====
-- Models and theorems for BIRD, the internet routing daemon.
--
-- BIRD runs routing protocols (proto/) over routing tables and attributes (nest/), filters routes
-- (filter/), and rests on a library of its own (lib/) and on the system layer (sysdep/). A protocol
-- receives packets, keeps its neighbors' state and timers, and hands routes with their attributes
-- to the tables; the attributes of BGP routes are AS paths and community sets. This library models
-- parts that carry such logic, each translated function by function:
--
-- - Common: names, lists and Boolean tests over the native numbers; Common.Word: C casts and shifts.
-- - Tbf: struct tbf of lib/birdlib.h and tbf_limit of lib/tbf.c, the limit on log messages. Tbf.Rate
--   has its theorems.
-- - ASet: community sets of nest/a-set.c, with the accessors of nest/attrs.h. ASet.Int, ASet.Ec and
--   ASet.Lc hold the operations on u32, u64 and three-word items, under the names of the source; a
--   set is the list of its u32 words, and a null pointer is none. Memory from lp_alloc and the C
--   library's qsort are parameters. The modules below them have the theorems.
-- - AsPath: AS paths of nest/a-path.c. A path is its list of bytes; AsPath.Queries, AsPath.Edit,
--   AsPath.Valid and AsPath.Walk hold the functions of the source, whose pointer loops are
--   recursions on fuel over the bytes left; none and fault are reads behind the end and calls of
--   bug(). The fuel is one more than the bytes, and every round uses up two of them or ends.
--   A record Segment is the abstract view, and encode its bytes.
--   AsPath.Match holds path masks: the array of struct pm_pos is the list of positions and the marks
--   a function of the index; its children go from runs of sets (Runs) over one position (Chains),
--   the loop over the marked ones (Sweep, Rounds, Steps) and one item (Items) to Masks, States,
--   Decides and Paths. The jumps to the label match get as much fuel as there are positions, and
--   each moves on by one. More positions than the array of the code has room for are none.
--   AsPath.Filter holds as_path_match_set and as_path_filter, with find_tree of filter/tree.c.
-- - Bfd: the BFD protocol. Bfd holds struct bfd_session of proto/bfd/bfd.h and the packet format,
--   Bfd.Password the lookups of nest/password.c, Bfd.Ops the session operations of proto/bfd/bfd.c,
--   Bfd.Transmit and Bfd.Receive those of proto/bfd/packets.c. An operation takes the session and
--   returns the new one; the current time is an argument, packets sent are collected in the field
--   `sent`, and mac_fill and mac_verify of lib/mac.c are parameters. Locks, tracing, the kick of the
--   main loop and the hash tables of sessions are left out: the hook is given the session that the
--   lookup found. Times are numbers, as the clock is not negative, and sums of times do not wrap.
--   Bfd.Exchange, Bfd.Window, Bfd.Advanced and Bfd.Replay are about packets received, Bfd.States,
--   Bfd.Timing, Bfd.Intervals and Bfd.Reach about states, timers and intervals.
-- - Idm: the map of IDs of lib/idm.c. The array is the list of its words; `none` is an assertion that
--   fails, where a build without DEBUGGING logs and goes on. Idm.Bits and Idm.Slots are about words
--   and arrays, Idm.Invariant, Idm.Alloc and Idm.Free about the operations, and Idm.Reach about users
--   that hold IDs and give them back. Sizes are up to 2 ^ 26 words, half of what the code asserts.
-- - Rt: routing tables. Rt holds struct rte and struct rta of nest/route.h and the limits and counters
--   of nest/protocol.h, Rt.Better and Rt.Recalculate the functions rte_better and rte_recalculate of
--   nest/rt-table.c and channel_notify_limit of nest/proto.c. A network's routes are a list; the
--   search for the old route splits it, and the positions that the code keeps in pointers are the
--   parts of that split. The hooks of the protocols, the set of numbers in use (lib/bitmap.c) and the
--   clock are parameters; what goes to other parts (announcements, the prune timer, the hooks
--   rte_insert and rte_remove) is a list of events. Logs and the freeing of routes are left out.
--   Rt.Order and Rt.Best are about the best route, Rt.Sources, Rt.Refine and Rt.Updates about the map
--   from sources to routes, Rt.Sorted about sorted tables, Rt.Counts, Rt.Stats and Rt.Balance about
--   counters, Rt.Blocking about limits, and Rt.Cases lists the outcomes of a call.
-- - Bgp: the decision process of proto/bgp/attrs.c (Bgp.Decision), as the hook of the tables. The
--   struct bgp_proto of a protocol is a parameter, a function of struct proto. Bgp.Order has its
--   order, Bgp.Best its composition with Rt, and Bgp.Merge routes that are used together. The loop
--   over the AIGP attribute gets its length as fuel, and every round uses up three bytes.
-- - Babel: the routes of proto/babel/babel.c. Babel holds the data of proto/babel/babel.h and the
--   sources and routes of an entry, Babel.Requests the pending requests, Babel.Select the selection,
--   Babel.Update incoming updates and what outgoing ones note, Babel.Cost the cost of a neighbor and
--   the expiry of entries. An operation takes an entry and returns it with the events that it
--   causes. A table of entries is a list; the loops over all routes of a neighbor go in the
--   order of the entries, where the code follows the neighbor's list of routes, and the
--   iteration that expires entries has fuel for three passes over an entry. The clock, the
--   sender as a neighbor and the state of the channel are arguments. The events that go to the
--   tables come back by babel_rt_notify, which is not part of an operation here.
--   Babel.Routes, Babel.Chosen, Babel.Changes, Babel.Handled, Babel.Metrics and Babel.Recost are
--   about the selected route, Babel.Feasibility about sequence numbers and distances, and
--   Babel.Removal, Babel.Expiry, Babel.Walked, Babel.Walk and Babel.Passes about expiry.
-- - Examples: the theorems at concrete inputs, and runs of the functions.
--
-- Not modelled: the formatting of sets and paths into text buffers, the other operations of routing
-- tables (updates through filters, exports, pruning), the deterministic MED of BGP and its sessions
-- and packets, the packets, neighbors and authentication of Babel and the requests that it receives,
-- the filter language, the other protocols, configuration parsing, and the system layer.
pub mod Common
pub mod Tbf
pub mod ASet
pub mod Bfd
pub mod Idm
pub mod AsPath
pub mod Examples
pub mod Bgp
pub mod Babel
pub mod Rt
