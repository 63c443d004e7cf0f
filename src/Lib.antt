-- ===== src/Lib.antt =====
-- Chunky Monkey, a Minecraft server written in Go (src/ of the repository): a model of the parts that
-- carry the game's state, and the theorems about them.
--
-- The parts and their files. A player's click on a window reaches an inventory, whose operations move
-- items between the clicked slot and the player's cursor and report each changed slot to the
-- inventory's subscriber; a furnace is an inventory of three slots with counters that a tick drives, a
-- crafting inventory one whose first slot holds what the recipes make of the others.
-- Blocks live in chunks of 16 by 128 by 16 blocks, chunks in shards of 16 by 16 chunks, and all code
-- that finds a block or a chunk converts between these coordinates.
--   Base: Booleans, lists (Base/Lists), machine words (Base/Words, Base/Bits) and integers
--     (Base/Int).
--   Slot: src/chunkymonkey/gamerules/slot.go and itemtype.go. One function per method; a method that
--     changes its receiver and its argument returns both and whether anything changed. Slot/Pour has
--     the specification of the moves, Slot/Stock the well-formed slots.
--   Inventory: src/chunkymonkey/gamerules/inventory.go. `sent` collects the calls of the subscriber;
--     `none` is a run-time panic.
--   Furnace: src/chunkymonkey/gamerules/inv_furnace.go and furnace_data.go. `stateCheck` is split into
--     `ignite` and `react`, its two guarded parts.
--   Recipe and Crafting: src/chunkymonkey/gamerules/recipe.go and inv_crafting.go. The table of recipes
--     is an argument, and `none` a run-time panic; Recipe/Lookup compares the search through hash buckets with one of all recipes.
--   Window: src/chunkymonkey/window/window.go, over any type of inventories with the operations of
--     its interface IInventory.
--   Entities: src/chunkymonkey/entity/entity_manager.go.
--   Subscription: squareDifference of src/chunkymonkey/player/player_subscription.go, the chunks that
--     come into view when a player moves.
--   Coords: the integer coordinates of src/chunkymonkey/types/types.go, and chunkIndexAndRelLoc of
--     src/chunkymonkey/shardserver/shard.go.
--   Proto: src/chunkymonkey/proto/proto.go, whose Read and Write functions are read_ and write_
--     functions of Proto/Session, Player, Entity, Spawn, World and Windows, over the streams of
--     Proto/Wire; Proto/Event has the methods of the packet handlers, Proto/Dispatch the choice of the
--     reader, Proto/Sent what each side may send. Proto/Reading has the round trips, Proto/Shrinks and
--     Proto/Stable what the readers do with a stream. Proto/Receive has `receiveLoop` of
--     src/chunkymonkey/player/player.go. What the player does on a call is a parameter of it: that it
--     goes on, panics, or has the connection closed, as Disconnect does by way of `mainLoop`.
--   Nbt: src/nbt/nbt.go, the tags in which chunks and players are stored. Reading has fuel for each
--     tag, and enough for what a compound holds.
--   Permission: src/chunkymonkey/permission/jsonpermission.go, the permissions of users and groups. The
--     depth of the recursion through groups is an argument, and enough for groups of a lower rank.
--
-- A stream of the protocol is the list of bytes to come, and a reader gets what to do next as an
-- argument, so that every early return of the code is an end of the stream or an error value; what a
-- reader calls of its handler is collected. Strings are lists of code points. The loops over metadata
-- and over packets have fuel for one round more than the stream has bytes, and are shown never to run
-- out.
--
-- Machine integers are bit patterns: natural numbers below 2 ^ w, with the wrap-around written out, and
-- comparisons of signed values on patterns (`lt8`, `lt32`). The tables of items, fuels and reactions,
-- which the program loads from JSON, are parameters with the hypotheses IsTable and IsFurnaceData, that
-- stack sizes are at most 64, that fuels burn, and that reactions make known items. Loops over slots
-- are recursions on the list of slots, so no fuel is needed; the search for a free entity identifier
-- has fuel for all 2 ^ 32 of them, and is shown never to run out,
-- as is the loop over a square of chunks, which has fuel for one round more than its side.
--
-- Not modelled: floating point positions and physics, the compression of
-- chunks (a parameter of its packet), JSON, disk and network access, the goroutines around them, and
-- what a player does with the packets (a parameter of the receive loop).
pub mod Base
pub mod Coords
pub mod Crafting
pub mod Entities
pub mod Furnace
pub mod Inventory
pub mod Nbt
pub mod Permission
pub mod Proto
pub mod Recipe
pub mod Slot
pub mod Subscription
pub mod Window
