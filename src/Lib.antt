-- ===== src/Lib.antt =====
-- A model of the core of BaileysEx, a client for the WhatsApp Web protocol, and of the runner that
-- compares it with the reference implementation.
--
-- The parts and how they interact. A stream of bytes is cut into payloads (connection/frame.ex below
-- lib/baileys_ex); a payload, once it is decrypted, is decoded into a node with a tag, attributes and
-- content (protocol/binary_node.ex); its strings are looked up in token tables
-- (protocol/constants.ex) or written as addresses (protocol/jid.ex); a feature such as presence
-- (feature/presence.ex) reads nodes that arrive and makes nodes to send. The runner
-- dev/tools/run_baileys_reference.mts answers requests of the parity tests with the reference
-- implementation: each of its handlers reads a request, calls that implementation and normalises
-- the answer. Settings that devices share are kept in step by patches (syncd/codec.ex), whose
-- mutations are encrypted and signed with keys derived from one key (syncd/keys.ex, crypto.ex) and
-- summed up in a hash (util/lt_hash.ex). Scripts below dev/ make the vectors and fixtures that the
-- tests of the program read: dev/scripts/generate_syncd_vectors.mjs those of patches,
-- dev/tools/generate_signal_fixtures.mts those of the Signal protocol, whose addresses the program
-- makes in signal/address.ex, and dev/tools/generate_parity_vectors.mts a collection of all, with the
-- definitions of telemetry that dev/scripts/generate_wam_definitions.mjs extracts.
--
-- Which file models which part:
--   Constants   lib/baileys_ex/protocol/constants.ex. SingleByte and DoubleByte0 to DoubleByte3 hold
--               the tables, word for word; `lookup_token` is the token map, in which the last of
--               several equal tokens wins and single bytes come first; Domain holds the domains.
--   Jid         lib/baileys_ex/protocol/jid.ex: `parse`, `jid_encode`, `to_string` and the tests. Jid/Ops
--               has the normalisation (`normalized_user`, `same_user?`) and the conversions.
--   Wire        lib/baileys_ex/protocol/binary_node.ex. `Node` is BaileysEx.BinaryNode
--               (lib/baileys_ex/types.ex). Wire/Encode follows `encode` and Wire/Decode `decode`,
--               function by function; Wire/Access has the accessors of a node (`child`,
--               `child_string`, `assert_error_free`).
--   Frame       lib/baileys_ex/connection/frame.ex: `encode` and `decode_stream`.
--   LtHash      lib/baileys_ex/util/lt_hash.ex: `new` and `subtract_then_add`, the hash of the
--               application state as 64 words of 16 bits.
--   OfflineQueue  lib/baileys_ex/message/offline_queue.ex: `enqueue` and `drain`, with the calls of the
--               event emitter as a list. `emitter_after` is what `buffer` and `flush` of
--               lib/baileys_ex/connection/event_emitter.ex do to whether the emitter buffers.
--   Crypto      lib/baileys_ex/crypto.ex: padding, AES-CBC and HKDF.
--   Syncd       lib/baileys_ex/syncd/codec.ex, with the structs of
--               lib/baileys_ex/protocol/proto/syncd_messages.ex. Syncd/Keys is
--               lib/baileys_ex/syncd/keys.ex; Mac has the codes, Generator the generator of the hash,
--               Decode the mutations, Patches snapshots and sequences of patches, Encode
--               `encode_syncd_patch`. `Sync` is a result, an error or an exception.
--   SyncdVectors  dev/scripts/generate_syncd_vectors.mjs, function by function; Hash has its hash.
--   Signal      lib/baileys_ex/signal/address.ex: Address has `from_jid` and `to_string`. Memory has the
--               store of signal/store/memory.ex and the buffer of a transaction
--               (transaction_buffer.ex beside it), over the tables of Table.
--   SignalFixtures  dev/tools/generate_signal_fixtures.mts: Keys is the class MemoryKeys, Curve the
--               key pairs, the storage of direct messages and the queue of key pairs, ProtocolAddress
--               `protocolAddress`, SenderKeys and Direct the builders of the fixtures and `main`.
--   ParityVectors  dev/tools/generate_parity_vectors.mts, with the writes as a list of effects, and
--               Definitions dev/scripts/generate_wam_definitions.mjs.
--   Presence    lib/baileys_ex/feature/presence.ex: `handle_update`. Presence/Send has `send_update`
--               and `subscribe`, with what they give to the socket as the result.
--   Reference   dev/tools/run_baileys_reference.mts: its values and checks; Node has the JSON nodes,
--               Clock the message generator under a fixed clock, Presence the presence handlers,
--               Features the handlers of nodes, addresses, pairing and queries, Wam the telemetry
--               handlers, Run the dispatch and `main`.
--   Base        what the modules share: texts, decimal numbers, results and association lists.
-- The remaining modules hold lemmas and theorems (Laws, RoundTrip, Fuel, Parity and the like) and
-- the runs at concrete inputs (Tests).
--
-- Numbers and texts. A byte is a natural number, and a text or a binary is the list of its bytes. A
-- text is assumed to be valid UTF-8, as the program's are. Integers of Elixir have no bound, so
-- they are ℕ or ℤ; what is written into a fixed width is reduced to it.
--
-- Errors. A function that raises or returns an error gives a `Result` with the program's error. An
-- exception of the runner is `throws` with its message.
--
-- Fuel. `write_string` recurses through addresses: its fuel is one more than the length of the text,
-- and an address has parts that are shorter. `read_string` and `decode_node` recurse on what is left of
-- the input: their fuel is one more than its length, and every call reads at least a byte.
-- `decode_stream` has one unit for each frame, of which each takes three bytes. Running out is the
-- error `out_of_fuel`, or `none` in frames, which the program does not have.
--
-- Maps. A map is an association list in the order in which the platform enumerates it; attributes
-- that are decoded are put into it one by one, so that the last of several equal names counts.
--
-- Order. The scripts await one call after the other; `Promise.all` is taken in the order of its list.
-- Processes do not interleave in what is modelled.
--
-- Parameters. `:zlib` is the argument `uncompress`. SHA-256, HMAC, the cipher, base64, JSON and the
-- codec of the messages are fields of the record `Platform` of Syncd, or arguments. Every function
-- that the runner and the scripts take from Node.js, from libsignal or from the reference
-- implementation, whose sources are not in the repository, is a field of the records `Baileys`,
-- `Proto`, `Node`, `Library`, `Libsignal` and `Environment`. The type of JavaScript's numbers is a
-- parameter of the runner; the scripts' numbers are natural numbers or integers, but for the device
-- that `protocolAddress` reads, which is exact up to 2^53 and from there on a text that is a
-- parameter.
--
-- A version of a patch that is `nil` raises where it is read, while the program raises where it writes
-- the version into a code, and keeps `nil` if no codes are checked.
--
-- Not modelled: children that are `nil` and values of other types where the documented type says
-- otherwise; the socket, the event emitter and the token store behind presence, and what
-- the emitter holds back while it buffers; reading and
-- writing of streams and files by the runner and the scripts, and the printing of JSON; the locks
-- that transactions of the store in memory wait for; of the codec of patches the nodes that carry
-- them and the variants that call back; and the other components of the library (connection,
-- signal sessions, messages, media, authentication), which rest on processes, cryptography and
-- generated message types.
pub mod Base
pub mod Constants
pub mod Jid
pub mod Wire
pub mod Presence
pub mod Reference
pub mod Frame
pub mod LtHash
pub mod OfflineQueue
pub mod Crypto
pub mod Syncd
pub mod SyncdVectors
pub mod Signal
pub mod SignalFixtures
pub mod ParityVectors
