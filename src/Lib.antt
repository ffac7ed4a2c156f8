-- ===== src/Lib.antt =====
-- A verification library for mcAfkGo, a Minecraft client that keeps a player online. It models the
-- parts that carry bytes and packets between the server and the bot's handlers.
--
-- The parts and how they interact. A connection (net/conn.go) reads and writes packets
-- (net/packet/packet.go) through an optional stream cipher (net/CFB8/cfb8.go). A packet's data is a
-- sequence of fields (net/packet/types.go, net/packet/util.go, net/packet/builder.go). One goroutine
-- puts the packets that arrive into a queue (net/queue/queue.go); HandleGame (bot/ingame.go) takes
-- them out and calls the handlers that were registered (bot/event.go). NBT values inside packets are
-- printed as SNBT text (nbt/snbt.go) and scanned back (nbt/snbt_scanner.go).
--
-- Which file models which part:
-- - Base, with children Tests, Lists and Bits: shared names, lists over native numbers, machine words.
--   A signed integer is its two's complement bit pattern; a wrap-around is written as a remainder.
-- - Io: readers, writers and what ReadFrom and WriteTo return. A reader is a list of bytes that are
--   all at hand, and a flag for io.ByteReader; a writer is what was written, with the room that is
--   left before it fails. An outcome has the count that the method returns; a panic is a value.
-- - Wire, for net/packet/types.go: Wire/Fixed (Boolean, Byte, Short, Int, Long, Angle, UUID, Float,
--   Double), Wire/VarInt (VarInt and VarLong), Wire/Text (String, ByteArray, BitSet,
--   PluginMessageData, FixedBitSet), Wire/Position. WriteTo and ReadFrom of a type X are write_x and
--   read_x. The specification of VarInt and VarLong is Wire/VarInt/Groups.
-- - Field, for net/packet/util.go: Ary with its eight length types, Opt and Option in Field/Optional,
--   Tuple in Field/Tuple. Field/Laws is the interface between them and their elements: a type that is
--   Lawful writes its encoding by one Write, and reads it back.
-- - Packet, for net/packet/packet.go and net/packet/builder.go: Marshal, Scan, Pack, UnPack.
--   compress/zlib is not in the repository: deflate and inflate are parameters, of which a round
--   trip needs that inflating what was deflated gives it back.
-- - Cfb8, for net/CFB8/cfb8.go: the byte loop xorKeyStream and the constructors, with the block cipher
--   as a parameter. Cfb8/Reference has the cipher with a shift register. XORKeyStream chooses by
--   memory addresses between this loop and a form for long input, and the latter is not modelled.
-- - Queue/Linked and Queue/Channel, for net/queue/queue.go: the linked queue is a step relation, one
--   step for what a thread does while it holds the mutex; the channel queue is a state machine.
-- - Bot/Events and Bot/Game, for bot/event.go and bot/ingame.go: AddListener, HandleGame,
--   handleBundlePackets and handlePacket. A handler is a function on a world of any type. The packets
--   to come are a list, after which ReadPacket fails; the buffer pool is not modelled.
-- - Nbt/Read and Nbt/Write, for the reading and writing primitives of nbt/nbt.go, nbt/decode.go and
--   nbt/encode.go; Nbt/Raw, for rawRead and nbt/rawmsg.go. Nbt/Format is the specification: a data
--   type of values with their encoding.
-- - Bot/Login, for authDigest of bot/login.go, with SHA-1 as a parameter; Bot/Configuration, for the
--   data packs, the default handler and the tags decoder of bot/configuration.go.
-- - Bot/Basic, for the handlers of bot/basic/keepalive.go, bot/basic/ping.go and bot/basic/cookie.go.
--   The client's map of cookies is nil or made; `Served` is what the handlers make of a new client.
-- - Conn, for DialMCContext of net/conn.go: the network, the clock and the context are parameters, and
--   an attempt at an address is a function of the deadline.
-- - Snbt/Scan and Snbt/Escape, for nbt/snbt_scanner.go and writeEscapeStr of nbt/snbt.go: the
--   function value in the scanner's field `step` is the data type State.
-- - Snbt/Literal, for parseLiteral of nbt/snbt_decode.go, with strconv.ParseInt written out;
--   Snbt/Print, for encode and UnmarshalNBT of nbt/snbt.go and String of nbt/rawmsg.go, with
--   strconv.FormatInt written out; Snbt/Print/Trees has the text of a tree as the specification.
-- - Snbt/Decode, for the decode state of nbt/snbt_decode.go; its child Steps has the loops over the
--   elements of lists and arrays, Write the writers of values, and TagOf the method TagType. A call
--   gets the state and the sink and returns both; `e2` is a sink of its own.
-- - Examples: the theorems at concrete inputs.
--
-- Fuel. The loop of VarInt.ReadFrom is given 8 rounds, as its test on the length ends it by the
-- seventh; that of VarLong.ReadFrom 12, as it ends by the eleventh. HandleGame takes fuel, of which
-- each of its rounds uses one and at least one packet. rawRead and encode are given one unit more
-- than there are bytes, as each value and each member takes a byte before a further call; MarshalNBT
-- of a text three units more than it has bytes. All other loops are structural.
--
-- Not modelled: float32 and float64 (their bit patterns are parameters); the NBT field and its
-- counting reader and writer; Encode and Decode of NBT (nbt/decode.go, nbt/encode.go,
-- nbt/typeinfo.go), which work by reflection; strconv's reading and printing of floats, which are
-- parameters; sockets (net/conn.go); the loops of login and configuration (bot/login.go,
-- bot/configuration.go), the rest of the basic player (bot/basic), authentication (auth), chat, registry, the
-- generated packet names (data), the web front end and the programs at the root (main.go,
-- mcstatus.go, lastseen.go).
pub mod Base
pub mod Io
pub mod Wire
pub mod Field
pub mod Packet
pub mod Nbt
pub mod Snbt
pub mod Queue
pub mod Bot
pub mod Cfb8
pub mod Conn
pub mod Examples
