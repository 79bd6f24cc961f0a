-- ===== src/Lib.antt =====
-- WinXtend: one keyboard and mouse for several machines. This library models the parts of the
-- program that decide, and leaves out those that only talk to an operating system or a socket.
--
-- How the program hangs together. Captured input reaches the router of the machine that drives
-- (crates/wx-core/src/router.rs). Pointer motion goes through the virtual cursor
-- (crates/wx-core/src/cursor.rs), which asks the layout of all monitors
-- (crates/wx-core/src/layout.rs) whether the motion crosses to another monitor. The router answers
-- every call with actions: inject here, send a frame to a peer, hand control over. Frames are numbered
-- per peer, and the peer puts a sequence gate before them (crates/wx-proto/src/input.rs). Control
-- messages travel as length-prefixed frames on a stream (crates/wx-proto/src/codec.rs, read by
-- crates/wx-net/src/transport.rs). The agent also shares the clipboard
-- (crates/wx-agent/src/clipboard.rs) and places the monitors of a machine that nobody has placed
-- (crates/wx-agent/src/autolayout.rs). Before two machines take orders from each other they go through
-- a handshake (crates/wx-net/src/handshake.rs) over what each trusts (crates/wx-net/src/identity.rs),
-- and two that have never met are paired by a PIN (crates/wx-net/src/pairing.rs). The agent keeps a
-- table of its peers (crates/wx-agent/src/state.rs), which says whom to dial, and where the cursor
-- goes when the machine that it is on is gone. The keys that reach the router come from the backends
-- by way of a key resolver (crates/wx-platform/src/keyres.rs), and what arrives for an X11 desktop is
-- injected there (crates/wx-platform/src/linux_x11/inject.rs). A window of another machine comes as a
-- stream of packets (crates/wx-video/src/encode.rs) that two threads make
-- (crates/wx-video/src/pipeline.rs).
--
-- Which file models which part:
--   Proto/Codec       codec.rs: FrameReader as a record of buffer and offset, each method a function
--                     that returns the new reader; the loop of transport.rs `read_control`
--   Proto/Ids         ids.rs: identifiers and their equality
--   Proto/Geom, Edge  geom.rs: points, rectangles, fractions of a monitor
--   Proto/Float       f64, as an interface with the laws of IEEE 754 that the theorems use
--   Proto/Keyboard, Modifiers, Input   keyboard.rs and input.rs, with SequenceGate
--   Proto/Caps        caps.rs: capability bits, version negotiation
--   Core/Layout       layout.rs: GlobalLayout as a store and an order list
--   Core/Crossing     layout.rs: resolve_move, resolve_crossing and what they call
--   Core/Neighbours   layout.rs: has_neighbour, exit_edges, validate
--   Core/Cursor       cursor.rs: VirtualCursor
--   Core/Held         router.rs: HeldInput
--   Core/Transfer     router.rs: actions, emit, transfer
--   Core/Router       router.rs: motion, route, warp, set_layout, release_all; Core/Router/Steps has
--                     them as the steps of one machine
--   Agent/Clipboard   clipboard.rs: ClipboardSync, payloads, fingerprint
--   Agent/AutoLayout  autolayout.rs: place_node, apply, forget_node
--   Agent/State       state.rs: AgentState and PeerState; Agent/State/Events each event, Agent/State/Dial
--                     dial_targets, Agent/State/Reclaim reclaim_target, its distances and the choice
--   Agent/Engine      engine.rs: its decisions without input or output, from teardown_is_current to
--                     layout_key; Agent/Engine/Rescue reclaim_cursor and local_exits
--   Net/Control       control.rs: every control message
--   Net/Trust, Identity   identity.rs: TrustStore, and the message that is signed
--   Net/Handshake     handshake.rs: Handshake as a state machine; Net/Handshake/Memory run_in_memory
--   Net/Pairing       pairing.rs: Pin, the proofs, PairingSession
--   Platform/Accent   keyres.rs: Accent, compose, decompose
--   Platform/Keyres   keyres.rs: KeyResolver
--   Platform/Keys     linux_wayland/keys.rs in crates/wx-platform: keysyms and evdev codes
--   Platform/X11      linux_x11 in crates/wx-platform: Keymap is keymap.rs, which gives strokes for
--                     the first group of a row only (columns 0, 1, 4 and 5), Inject is inject.rs, the
--                     injector as a computation over its state and a server that may refuse a request;
--                     Inject/Modifiers, Keys, Pointer and Release are its methods, and
--                     Inject/Release also has histories of calls
--   Video/Frame       crates/wx-video/src/capture.rs: RawFrame
--   Video/Packet      encode.rs: the header, the passthrough encoder and decoder; Video/Negotiation
--                     which codec
--   Video/Pipeline    pipeline.rs: FramePacer, FrameSlot, and the capture and encode threads as the
--                     moves of one machine
--   Platform/Coords   coords.rs: rectangles, positions and monitor ids of the backends
--   Tests             concrete inputs, on fixed-point numbers that meet the laws of Proto/Float
--
-- Conventions. A method that changes its object returns the new one. A result `none` on the outside
-- is a panic. An i32 or i64 is an integer, with wrap-around written out where the source does not
-- saturate or widen; u16, u32 and u64 are natural numbers, with the remainder written out where a
-- sum could pass the width. A Duration is its nanoseconds, and a usize has 64 bits. A server
-- answers the n-th call as it likes: its answers are a function of n. A HashMap is an association
-- list with each key once.
--
-- Fuel. `drain` runs on one more unit than there are pending bytes, which is enough because every
-- frame takes at least four bytes. The rounds of run_in_memory are counted in the source, 8 of
-- them; two are enough for parties that admit each other. The buffers that Pin::generate draws are
-- a list, and its result is `none` as long as it wants another. All other loops are structural. A
-- `none` stands for a panic, of `f64::clamp` or of an `expect`: an i32 difference that overflows
-- wraps, as in a release build.
--
-- Parameters. The serialiser (postcard), the compressor (zstd), the read of the clipboard, f64 with
-- its total order, the letter case of a character, the rounding of an f64 to an integer, Ed25519,
-- SHA-256 and the comparison in constant time are arguments; what a theorem needs of them is a
-- hypothesis of it.
--
-- Not modelled: the operating-system backends but for X11's keymap and injector, the capture of
-- screens, sockets, discovery, the files of keys, trust and configuration, and the event loop of
-- the engine that joins the parts, which are input and output or calls of third-party code.
pub mod Prelude
pub mod Proto
pub mod Core
pub mod Net
pub mod Agent
pub mod Platform
pub mod Video
pub mod Tests
