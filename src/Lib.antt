-- ===== src/Lib.antt =====
-- Verification of NeoHabitat's client-side JavaScript: the mirror of a region that every client
-- keeps (habiworld), the sound driver (habisound) and the image decoder (webclient/habirender).
--
-- World models habiworld/lib/world.js, openable.js and constants.js. The class HabitatWorld is the
-- record `World`: the maps `objects` and `refs` as lists of entries in the order of insertion, the
-- region, `meNoid`, and the events and presentation calls, newest first. The fields of an object's
-- `mod` that the modelled code reads or writes are the record `Mod`, a missing field `none`. Table
-- has the operations of the two maps, Contents the queries that follow `containerRef` and
-- `_changeContainers`, Delete `_deleteByNoid`, Make `_makeObject` and `_reconcileSeating`. The laws
-- of the maps are in Tables, Identity and Effects; Removal, Depth, Ranks, Orphans, Untouched and
-- Deletion are about deletions, Index and Lookup about the agreement of the maps, Seating about the
-- entry of seated avatars.
--
-- Host models the messages of the server, in habiworld/lib/behaviors: a handler is a function from
-- a context and a world to a world and an outcome. Message has the parsed message, Context the part
-- of kernel.js that the handlers use, and Doors, Inventory, Motion, State, Choreography, Devices
-- and Machines the handlers of the files *_host.js and the handlers of messages in devices.js,
-- gadgets.js, magic.js, machines.js and consumables.js. Dispatch models dispatch_host.js and Apply
-- `HabitatWorld.apply`, which Sessions iterates. The generated class table, the sounds of the
-- classes and the behaviors that are left out are the parameter `Classes`; Indexed and Returns
-- state what is assumed of the latter.
--
-- Kernel models the walk geometry of habiworld/lib/behaviors/kernel.js; the table of
-- walk_offsets.js is a parameter. Codec models webclient/habirender/codec.js from the packed bytes
-- to cels, limbs and bodies. Sound models habisound/lib/sid.js and interpreter.js: `Player` is the
-- class SfxPlayer, and a call of `maintain` one frame.
--
-- Verb models what our own avatar does: dispatch.js, the verbs of the other files in
-- habiworld/lib/behaviors, and habiworld/lib/actions.js. A behavior is a program (Program): what it
-- does up to its next await of a client's callback, the request, and a function from the answer and
-- the world at that time to the rest; a message that is applied meanwhile is a change of that
-- world. Context has `makeCtx` as verbs use it, with the optional callbacks in `Setting`, Walking
-- its walks and places, and Pause `walkWaitMillis`; Basic has the verbs of index.js, Carrying those
-- of the six files about hands, pockets and heads, Openables those of generic_adjacentOpenClose.js
-- and containers.js, Things those of items.js, furniture.js and die_do.js, Held those of devices.js
-- and consumables.js, Magic those of magic.js and gadgets.js, Machines those of machines.js and
-- Payments those of machines2.js. Registry has their names, Dispatch dispatch.js over a class table
-- that is a parameter, Actions the actions of bots. `run` takes the levels that MAX_DEPTH leaves, 9
-- at the top, and refuses at 0 as the source does. Keeps has a rule for each way to build a
-- program, by which Keeps/Dispatch and Keeps/Actions show that every verb keeps what single writes
-- keep; Sessions puts that together with the messages of Host. Ends is about how a program ends,
-- Alone about how it ends with a given client and no message meanwhile, Granted about GET in that
-- case, Outcomes about the verb GET, Doors and Containers about DO of doors and containers, against
-- an abstract lock (`LockState` and `turn_lock`), and Strides about `walkWaitMillis`, whose square
-- root is an integer one here.
--
-- A record of an object that a verb holds across an await is read and written by its identity. The
-- field `life` stands for that: it numbers the records in the order of making, and `lost` has those
-- that a message has deleted, or replaced by another record of their noid, so that a verb goes on
-- with the record that it holds and leaves the new one alone. A text in a field of numbers stands
-- as no number.
--
-- A throw is a value: `false` beside the world, or the outcome `threw`, stands for the overflow of
-- the call stack, and the world is what the calls before it left. Deletion takes fuel for the depth
-- of the stack; `delete_by_noid` gives one more than the number of objects, which is enough
-- whenever containment is not cyclic. `climb` takes fuel for the steps up the containers, and
-- `next_ramp` for the commands between two waits of a sound, a loop that the source does not bound.
--
-- Not modelled: generic_askOracle, compass_do and magic_lamp_talk among the verbs (a parameter of
-- Dispatch, as is every name that the registry lacks), promises that the client rejects, the client
-- itself, the bridge, the server, the renderers and all I/O. Numbers of the wire are not negative,
-- but for the adjustment of the light; strings are compared, never taken apart. A session runs one
-- action of ours at a time.
mod Prelude
pub mod World
pub mod Host
pub mod Kernel
pub mod Codec
pub mod Sound
pub mod Verb
