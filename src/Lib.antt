-- ===== src/Lib.antt =====
-- CyuCore 26.2, a Minecraft server for Java Edition in Go.
--
-- The server reads packets from its connections, hands what the players do to one runtime owner
-- through a mailbox, and lets plugins subscribe to events, register commands and schedule tasks. This
-- library models the parts below, one module for each, and proves what they promise.
--
-- Base: numbers, tests, lists by native numbers, strings, outcomes, words and bit operations.
-- Stream: io.ReadFull and big-endian words. A reader is the list of the bytes that it still has, so a
--   short read ends as io.EOF or io.ErrUnexpectedEOF does.
-- Protocol: internal/protocol/codec.go. ReadVarInt is read_var_int, and so on for each function. An
--   int32 is its two's complement pattern, below 2 ^ 32. An io.Writer is a record of a state and a
--   write operation, with the laws that the documentation of io.Writer states.
-- Nbt: internal/nbt (type.go, value.go, encode.go, decode.go, optional.go, modified_utf8.go,
--   modified_utf8_decode.go). A Compound, which is a Go map, is the list of its entries in the order
--   in which writeCompound sorts them; floats are their bit patterns, and strings their code points.
-- Mailbox: internal/runtime/mailbox/queue.go. TryPost and PostCritical are one step each, as the
--   channel and the mutex make them, and TryPop is two, popCritical and a receive from the channel.
--   Mailbox/Order has the sequences of calls, with posts between those two steps. In Players/Runtime
--   the posts come between the drains, so that TryPop is one step there.
-- Plugins: internal/pluginruntime with api/command and api/event. Plugins/Names has the names of
--   commands and events, Plugins/Entry the counters and the recovery from panics, Plugins/Commands
--   command_registry.go, Plugins/Events event_bus.go and Plugins/Lifecycle manager.go. Each mutex makes
--   an operation one step, and Reachable in each has the sequences of steps. A plugin's code is a
--   parameter, which may return, fail or panic and change the state that its context reaches. The
--   entries are told apart by their number, and the nil receivers of these types, which the manager
--   never makes, are left out.
--   Plugins/Scheduler is scheduler.go with api/scheduler: container/heap is the list in the order in
--   which it gives the tasks, and a handler is the list of what it does to the scheduler.
--   Plugins/Context puts the bus, the registry and the scheduler together behind the registrars of
--   lifecycleContext: the code of a plugin is there the list of its calls, in Enable, in Disable and
--   between the operations of the manager, where the ticks of the scheduler run as well, which open no
--   owner. Plugins/Lifecycle/Tidy has what such services promise to the manager, and
--   Plugins/Lifecycle/Runs what follows for every run.
-- Sessions: session.go, session_login.go and session_play.go, with sendConfiguration and the part of
--   AddPlayer of server.go that concerns the session itself. Each packet that is read, each round of
--   the write loop, each event of the runtime owner and each Close is one step. The connection is
--   what it reads and whether a write succeeds; the mailbox is its answer to a post.
-- Players: Players/Snapshot has the sequence lock of player_state.go, each atomic one step, and
--   Players/Roster how players join and leave (server.go): the steps of AddPlayer, of Close and of the
--   removals interleave, while the tick loop runs and the mailbox is open. Players/Runtime is the drain
--   of the mailbox by the runtime owner, which puts Mailbox, World, Sessions and Packets together. What
--   chat and the plugins do there are parameters.
-- Registry: internal/registry (identifier.go, model.go). A Go map is the list of its entries.
-- Configuration: internal/protocol/java/v776. Packets: the builders of types.go.
-- World: world.go. Chunk: chunk.go, with writeVarInt of protocol.go; Chunk/Client is the layout of its
--   packet as a client reads it. Positions: the packing of block
--   positions of types.go. Colors: translateColorCodes of protocol.go. An int is its two's
--   complement pattern, below 2 ^ 64.
--
-- Loops. The loop of ReadVarInt counts five rounds, as the code does. AppendVarInt recurs on the
-- order of the numbers. writeAll has one round of fuel for each byte, and each round that goes on
-- takes a byte. A tick's search for a due task has one round for each task in the queue, and its
-- loop one round for each call that the limit allows, as has a drain of the mailbox for each event.
-- The loop of readList counts its elements. That of readCompound has one round of fuel more than
-- there are bytes, and each round takes one; readPayload counts the nesting down from its limit.
-- That the fuel is enough is part of the theorems.
--
-- Not modelled: what AddPlayer of server.go sends, its start-up and its listener, the EnterPlay
-- event within a drain, the tick loop, the built-in commands, the JSON form of NBT and of the data
-- set (dataset.go, vanilla_data.go); buildStatusResponse, buildAddPlayerEntity and
-- buildGameEventGameMode, which need JSON or compute with floats; files, sockets, console,
-- configuration and the offline tools, which are input and output; encoding/json, crypto/md5 and
-- the Go runtime. The ids of tasks, commands and subscriptions and the sequence of a snapshot store
-- wrap at 2 ^ 64, and the theorems on reachable states assume that no counter has done so.
mod Base
pub mod Stream
pub mod Protocol
pub mod Nbt
pub mod Mailbox
pub mod Plugins
pub mod World
pub mod Colors
pub mod Chunk
pub mod Positions
pub mod Registry
pub mod Configuration
pub mod Packets
pub mod Players
pub mod Sessions
