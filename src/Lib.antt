-- ===== src/Lib.antt =====
-- Verification of securefs: the streams that encrypt files, the names of encrypted files, the objects of
-- files, directories, and the table of open files.
--
-- securefs keeps an encrypted file system in a folder. A file is a stream of bytes (`StreamBase`). In
-- the lite format, `lite::AESGCMCryptStream` encrypts each block into the stream of the file below, with
-- an IV and a MAC around it. In the full format, a file is two streams: `AESGCMCryptStream` encrypts the
-- blocks in place in the first, and keeps IVs, MACs and a header in the second, which `HMACStream`
-- signs as a whole. Both are subclasses of `BlockBasedStream`, which makes reads, writes and resizes of
-- any range out of whole blocks. `FileBase` keeps the attributes of a file in the header; `FileTable`
-- shares the objects of open files, counts their handles and caches idle ones.
--
-- The parts, and the files that model them:
-- - Stream.antt (sources/streams.h): `StreamOps` is the interface StreamBase, over the state of the
--   object; `StreamLaws` is its contract, a file of bytes up to a limit. `Becomes` says that an operation
--   succeeds, and what the file is then. Stream/Memory.antt is a stream in memory, to try the others on.
-- - Stream/Block.antt (sources/streams.h, sources/streams.cpp): `BlockBasedStream`. `BlockOps` are the
--   virtual functions of its subclass and `BlockLaws` what the subclass owes; the files below it are
--   about the private overloads (Range), Reads, Writes, Resizes, the whole as a StreamBase (Contract), and
--   a file as what its blocks are (Pieces).
-- - Lite/Stream.antt (sources/lite_stream.h, sources/lite_stream.cpp): `lite::AESGCMCryptStream` over any
--   stream. Sizes, Seal, Blocks, ReadBlock, WriteBlock, Adjust and CutBlock are about its operations,
--   Laws about it as a subclass of BlockBasedStream, Contract about the two together, Verified about
--   the MACs and headers that it refuses, BlockNumbers about the numbers of blocks that it takes.
-- - Lite/Names.antt (sources/lite_fs.cpp, and `transform` of sources/mystring.cpp): the paths of the lite
--   format. RoundTrip is about encrypt_path and decrypt_path, Translate about translate_path and what is
--   refused, Listing about `LiteDirectoryTraverser`. They use Text/Base32.antt (sources/mystring.cpp) and
--   Crypto/Siv.antt (sources/crypto.cpp), the `AES_SIV` in which names are encrypted: Verify is about the
--   two directions, Doubling about the shift of a block.
-- - Lite/FileSystem.antt (sources/lite_fs.cpp): `FileSystem` over `OSService`, a record of operations on a
--   state. Opening is about open, Symlinks about symlink with readlink and stat; Forwarded has the
--   operations that only translate their paths.
-- - Stream/Hmac.antt (sources/streams.cpp): `HMACStream`, in Contract as a stream, in Check for its MAC.
-- - Stream/Crypt.antt (sources/streams.h, sources/streams.cpp): `CryptStream` and `AESGCMCryptStream` of
--   the full format; RoundTrip for headers and single blocks, Headers as the `HeaderBase` of a file. Blocks
--   says when its two streams are a well-formed file; Adjust, Written, Writes and Resizes are about its
--   operations, Laws about it as a subclass of BlockBasedStream, Contract about the two together.
-- - File.antt (sources/files.h, sources/files.cpp): `FileBase`. m_flags[0] to m_flags[6] carry the names
--   of their getters. Header is about the stored attributes, Links about nlink, Xattrs about the extended
--   attributes.
-- - FileTable.antt (sources/file_table.h, sources/file_table.cpp): `FileTable`. An object has an address,
--   and a handle is an address with the id that the object has; operations return the table together with
--   their result, since an exception leaves the changes made before it. Keys has the lemmas on the map,
--   Invariant the cache, Handles the objects that are in use. Paths has both versions of `FileTableIO`
--   over what they call of `OSService`; Separate is about the names, Unlinks about unlink.
-- - BtreeDir.antt (sources/btree_dir.h, sources/btree_dir.cpp): the codec of a `BtreeNode`, which is
--   about its children and entries; BtreeDir/Pages.antt: the list of free pages of a `BtreeDirectory`,
--   whose header fields `Dir` keeps. Nodes and Pages/FreeList have the lemmas.
-- - SimpleDir.antt (sources/files.h, sources/files.cpp): `SimpleDirectory`; Refines is about its entries
--   as a function, Saved about what it stores. Maps.antt is std::unordered_map, as FileTable uses it too.
-- - Text.antt (sources/mystring.cpp), with Hex for hexadecimal text and Words for split;
--   Endian.antt (sources/myutils.h), Crypto.antt (what is used of CryptoPP), Error.antt
--   (sources/exceptions.h), Prelude.antt (shared names and lemmas).
-- - Tests.antt: the theorems at concrete inputs.
--
-- Modelling. A buffer is the list of its bytes, each a number, and an id is the list of its bytes. Sums of
-- offsets that the code computes in 64 bits are taken modulo 2^64 (`u64`). An operation that may throw
-- returns a `Result`; messages are left out. `unset` stands for the contents of a fresh buffer.
--
-- Bounds and fuel. The limit of a lite file is 2^31 blocks, as the code has it and one more than
-- docs/design.md says; the stream below must have room for them. That of a full-format file is 2^30 + 1
-- blocks. The loops of `read` and `unchecked_write` get as much fuel as bytes are left, since each round
-- takes one at least; `zero_fill` likewise; `run_mac` gets one round more than the stream has bytes; the
-- loop that draws an IV gets `tries` rounds, and `RngLaws` assumes that not all of them draw zeros, which
-- no generator guarantees; `base32_encode` gets one round more than the input has bits; `initialize` of a
-- directory one more than the stream has records. `stuck` is the outcome without fuel, and `undefined`
-- that of a read outside of a buffer, which is undefined in C++. A signed integer that is stored in 32 or
-- 64 bits is the number of these bits.
--
-- Not modelled. AES-GCM, AES in ECB mode, CMAC, AES in counter mode, HMAC-SHA256 and the random numbers
-- are parameters, with the laws of their documentation (`GcmLaws`, `SivLaws`, `RngLaws`, the length of a
-- digest), as are OSService and its streams (`Removes`, `RootLinks`, `XattrLaws`) and utf8proc_map, of
-- which nothing is supposed. `flush` of a stream below, fsync and locks change nothing that is read. Of
-- the B-tree, the cache of nodes and the changes of the tree are left out. The FUSE operations, the
-- derivation of keys, commands and the platform layer are not modelled; neither are the copies of
-- libraries.
pub mod Prelude
pub mod Error
pub mod Stream
pub mod Endian
pub mod Crypto
pub mod Lite
pub mod Text
pub mod FileTable
pub mod File
pub mod Maps
pub mod SimpleDir
pub mod BtreeDir
pub mod Tests
