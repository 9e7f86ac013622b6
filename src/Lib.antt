-- ===== src/Lib.antt =====
-- Verification of shvc, the C implementation of the Silicon Heaven RPC protocol.
--
-- The program packs and unpacks the protocol's data items (libshvcp), builds messages from them
-- and matches resource identifiers (libshvrpc), and routes the messages between clients
-- (libshvbroker).
--
-- Files and the code that they are about:
--
-- - Base and its children: tests, lists, integers, bytes and bits that the other files share.
-- - Stdio: what the packers and unpackers use of a `FILE *`. A stream that is written to has
--   a bound on the bytes that it still takes, and an error indicator; one that is read from has
--   the bytes still to come and whether a read error follows them.
-- - CpItem: include/shv/cp.h, the item that packers take and unpackers fill. The type tag and the
--   union are one data type, and each buffer flag is a field.
-- - ChainPack/Scheme, ChainPack/Integer: include/shv/chainpack.h.
-- - ChainPack/IntegerCodec: chainpack_pack_uint, chainpack_pack_int, chainpack_unpack_uint and
--   chainpack_unpack_int of libshvcp/chainpack_pack.c and libshvcp/chainpack_unpack.c.
-- - ChainPack/Pack: chainpack_pack, and common_pack of libshvcp/common.c.
-- - ChainPack/UnpackBuf: chainpack_unpack_buf.
-- - ChainPack/Unpack: chainpack_unpack, and common_unpack of libshvcp/common.c.
-- - CpDecimal: cpdecnorm and cpdecexp of libshvcp/cpdecimal.c. The exponent is not bounded.
-- - Crc32: libshvrpc/crc32.c and include/shv/crc32.h; Crc32/Bitwise has the update by single bits.
-- - Strset: libshvrpc/strset.c and libshvrpc/strset.h, the array of strings in the order of their
--   hashes. Strset/Position has the binary search, Strset/Laws and Strset/Exact the set.
-- - Stream: the framings of libshvrpc/rpcclient_stream.c. What poll, read and write do is a list of
--   events on the reading side, and on the writing side a bound on the bytes that the peer takes.
--   The two halves of `struct ctx` are apart, each with an `errnum` of its own.
-- - Stream/Serial: cookie_write_serial, cookie_read_serial, rpcclient_stream_serial_send, _drop,
--   _nextmsg and _validate. Stream/Serial/Writing and Pieces have what goes on the line,
--   Reading, Check and Whole what the peer makes of it.
-- - Stream/Block: cookie_write_block, cookie_read_block, rpcclient_stream_block_send, _drop and
--   _nextmsg. Whether realloc succeeds, and how many bytes a read gives, are parameters.
-- - RequestId: libshvrpc/rpcmsg_request_id.c, the calls of one thread. Its loop runs on fuel of the
--   rounds until the counter wraps.
-- - CpTools: cp_repack of libshvcp/cp_tools.c, and the functions of libshvcp/cp_unpack.c that drop and
--   skip items, with for_cp_unpack_item of include/shv/cp_unpack.h. A generic unpacker is the list of the items that it
--   gives, and a generic packer which items it takes. CpTools/Whole has
--   items in several parts and their repacking, CpTools/Skipping how they are skipped.
-- - Rpcaccess: libshvrpc/rpcaccess.c, with the lookup of libshvrpc/rpcaccess.gperf as a parameter.
--   Rpcaccess/Tokens has the words of a string of access levels.
-- - Rpcri and Rpcri/Identifier: libshvrpc/rpcri.c. A pointer into a string is the list of the bytes
--   from there on, and a read behind the end of a string is a verdict of its own. Rpcri/Pattern has
--   what a pattern without classes is meant for, and what the code takes it for, Search, Round and Plain the matcher against it, Class
--   the classes, and Parts the resource identifier of a path, a method and a signal.
-- - Broker/Subscription: libshvbroker/subscription.c, which client is subscribed to which resource
--   identifier. The array is a list in the order of strcmp, `bsearch` and `qsort` are what the C
--   standard says of them, and a pointer to an element is its index.
-- - Broker/State: libshvbroker/broker.h, the broker with its lock, its table of clients and its
--   mounts. A pointer of the table is null, to a client, or to memory that was freed.
-- - Broker/Mount: libshvbroker/mount.c, with strtol of the C library as a parameter. Mount/Search
--   and Mount/Found have the binary search, Mount/Table the array.
-- - Broker/Clients: libshvbroker/role.c and libshvbroker/rpcbroker.c. Clients/Safety,
--   Registration and Removal have the invariant, Clients/Invariant the reachable states, and
--   Clients/Failure the error of a registration. Operations run one after the other; one that waits for a lock that is never
--   given back has no result.
-- - Broker/Signal: libshvbroker/multipack.c and libshvbroker/signal.c, whom a signal is sent to and
--   the locks around it. A call returns, waits for the lock forever, or uses memory that is not the
--   program's. Signal/Choice has the destinations, Signal/Delivery the packers and locks.
-- - Broker/Stages: libshvbroker/access_stage.c; Broker/Stages/Rpc: libshvbroker/rpc_stage.c. The
--   broker's own methods, the callback `access` of a role and strtol are parameters. Stages/Routing
--   has requests and responses, Rights the access of a request, Locking the lock of signals, and
--   Expiry the subscriptions that end.
-- - Broker/Sample: a broker with two clients, for the tests.
-- - Broker/Nbool: libshvbroker/nbool.h, a set of client IDs as an array of words.
--
-- Numbers are unbounded; the widths of C stand in the definitions where they matter: `uintmax_t`
-- and `unsigned long long` have 64 bits, `unsigned` has 32. Hosts are little-endian. An item's
-- double is its bit pattern.
--
-- The loop of chainpack_unpack_buf runs on fuel above `measure`, 2 ^ 64 times the bytes of input
-- and what is left of the chunk: each round consumes input or lowers what is left.
--
-- The binary search of strpos runs on fuel of the number of items: its range holds no more, and
-- every round makes it shorter.
--
-- The loop of cpdecnorm runs on fuel of the mantissa's magnitude, which every round divides by ten; that of
-- cpdecexp on the distance of the two exponents.
--
-- cookie_write_serial runs on fuel of two rounds for each byte and two more, of which every write
-- of a buffer uses one; the skipping of noise runs on fuel of the events to come; cookie_write_block
-- doubles its buffer on fuel of the bytes needed and two more.
--
-- The binary search of mounted_client runs on fuel of the number of mounts, which its range never
-- exceeds.
--
-- rpcaccess_granted_extract runs on fuel of the length of its string, which every round makes
-- shorter, and cp_repack and cp_unpack_finish on fuel of the items to come.
--
-- rpcri_match_one runs on fuel of the length of its pattern, of which every round and every call
-- consumes some; the loop that clears destinations runs on fuel of the bits of the set.
--
-- Not modelled: the text format CPON, the other helpers over the generic packer and unpacker, the RPC
-- messages, the transports and the control operations of streams, the broker's own methods and
-- logins, and the applications.
pub mod Base
pub mod Stdio
pub mod CpItem
pub mod CpDecimal
pub mod ChainPack
pub mod Crc32
pub mod Strset
pub mod Stream
pub mod RequestId
pub mod Rpcri
pub mod Rpcaccess
pub mod CpTools
pub mod Broker
