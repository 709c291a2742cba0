-- ===== src/Lib.antt =====
-- Unidaw, a tracker-first audio workstation: the data structures of its C++ engine (apps/).
--
-- The engine keeps a clip of musical events for each track, edits it on commands of the UI, and
-- answers with diffs. Commands, diffs and plugin events travel through rings in shared memory.
-- Each track also has a chain of devices, the engine a patcher graph, and a watchdog
-- restarts a plugin host that is late.
--
-- Ring (apps/event_ring.cpp, the structs of apps/shared_memory.h): the ring of events. `ring_write`,
--   `ring_peek` and `ring_pop` are ringWrite, ringPeek and ringPop on an `EventRingView`; the
--   reference parameter `entry` is an argument and a result. Ring/Valid has the usable views,
--   Ring/Refine the bounded queue that they implement, Ring/Spsc both threads access by access.
-- Event, Clip (apps/musical_structures.h): `MusicalClip`, each method a function to the new clip.
--   Clip/Span holds removeNoteOffsAfter and removeNoteOffsInSpan, with Span/Silence and Span/Needless
--   about what they leave, Clip/Rows `PatternView`. An iterator is an index; erased
--   and inserted sequences are lists.
-- Payload, Edit (apps/event_payloads.h, apps/clip_edit.cpp): the edits of a clip with the diff and
--   the undo entry that they return; the atomic clipVersion is passed in and out.
-- Abi, Chain (apps/patcher_abi.h, apps/device_chain.cpp): the device chain. A failed call returns
--   false and the chain as it was.
-- Graph (apps/patcher_graph.h, apps/patcher_graph.cpp): the patcher graph. Graph/Build is
--   buildPatcherGraph, which returns the flag and the graph it leaves, as far as an early return
--   filled it. boost::topological_sort and boost::out_edges are parameters, and the boost graph is
--   the list of its edges. Graph/Ports has isValidEdge, Graph/Relax and Graph/Depth the pass that
--   computes depths, Graph/Built and Graph/Longest the whole call. Graph/Edits has the edits of a
--   PatcherGraphState, each one step since it holds the mutex throughout; Graph/Kinds, Graph/Usable
--   and Graph/Run what sequences of them keep, Graph/Stale what a refused cycle leaves. At most 1024
--   nodes are accepted,
--   so that a 16-bit depth never wraps.
-- Watchdog (apps/watchdog.h): the check that a plugin host keeps up; Watchdog/Streak says when it
--   restarts the host.
-- Harmony (apps/harmony_timeline.cpp): the searches in the harmony events of a song.
-- Automation (apps/automation_clip.h): the points of a parameter. Automation/Held has the values of a
--   discrete one, Automation/Added the points after any additions. The arithmetic of doubles between
--   two points is a parameter.
-- Latency (apps/latency_manager.h): the latency of the pipeline of blocks; Latency/Blocks.
-- Engine (apps/daw_engine_main.cpp): what handleUiEntry does with the commands of the UI. `Engine`
--   has the tracks, versions, harmony events, undo stacks and transport that the lambdas of main
--   share; each lambda is a function to the engine after it, and a step of the UI thread. Entries
--   have been read as the struct of their command. What is handed to ringWrite for the UI is in
--   `outbox`, what is asked of a plugin host in `host_calls`. Engine/HarmonyEdits, Notes, Commands,
--   Routes, ModFlags, Mods, Hosts, Chains, Targets, Patcher and Loads hold the code, Engine/Handle
--   the dispatch; Timeline, Restore, Accept and Undo are about undo and redo, Clips, Sound, Kept,
--   Devices, Patched, Replays, Tracks and Safe about what all commands keep, Stale about the version
--   guards, Bumps, Renews, Lost and LostHarmony about edits against one version, Laws about flags and the loop, Slots about the plugins of a host, Growth and Unpublished
--   about new tracks and loaded plugins. The file system's canonical paths, and what a host answers
--   when it is started, are parameters, as are boost's two functions for the patcher commands.
--   Engine/Playback and Blocks are the transport and the choice of a block in the producer thread,
--   Windows, Gather and Looped about the events that it gathers, BlockSlots about the slots of blocks;
--   the ticks of a block, and what a host has completed, are parameters. Engine/Mirror replays the
--   parameters of a track to a new host, Engine/Views is what is shown of the song.
-- RenderAhead (apps/render_ahead.cpp): the ring of rendered audio blocks and its engine.
--   RenderAhead/Cells and Copies have the places of samples, Waiting the queue of blocks, Queue what
--   each call does to it, and Threads, Locals, Invariant and Fifo both threads access by access.
-- StableId (apps/uid_hash.h): the FNV-1a hash and the id of sixteen bytes.
-- Routing, Modulation (apps/track_routing.h, apps/modulation.h): the data of the routes and links.
-- Snapshot (apps/ui_snapshot.cpp): the pages of a clip window. Snapshot/Pages has one page,
--   Snapshot/Ends where it starts and ends, Snapshot/Follow a UI that asks for all of them.
-- StateContainer (apps/state_container.cpp): the file of a plugin's state as a list of bytes, with
--   CRC-32C computed by its bits instead of a table that is filled once.
-- Shm (apps/shared_memory.cpp): alignment, the bytes of a host, and the layout of the UI's memory.
--   The sizes of the structs are parameters.
-- Base: what the standard library does for the code (vectors, searches, masks, words), with laws.
--
-- Words are natural numbers; where the source adds, the sum wraps (`add32`). `&` with a mask
-- and the power-of-two test are the bit operations themselves. Floats are bit patterns, which
-- these parts store, and of which only automation computes new ones. Loops are recursions over
-- lists, which need no fuel. Two loops have a count: the UI that follows pages is given as many
-- as the clip has events and one more, and ensureTrack tests its condition at most `grow_fuel`
-- (9) times, one more than the 8 tracks of the UI. Both counts are shown to be enough. A device
-- kind that AddDevice casts from a number outside the enum is `DeviceKind.unnamed`.
--
-- Not modelled: SavePatcherPreset, the counters of sent and dropped diffs, what the producer
-- thread sends to the hosts for the events of a block, the audio callback that mixes, the audio
-- backends and JUCE (platform_juce/, the host process), file and socket input and output, the
-- start of the program, the Rust UI, and logging. Atomics are read in one order of effect.
pub mod Base
pub mod Ring
pub mod Event
pub mod Payload
pub mod Abi
pub mod Clip
pub mod Edit
pub mod Chain
pub mod Graph
pub mod Watchdog
pub mod Harmony
pub mod Automation
pub mod Latency
pub mod Routing
pub mod Modulation
pub mod StableId
pub mod Engine
pub mod Snapshot
pub mod StateContainer
pub mod Shm
pub mod RenderAhead
