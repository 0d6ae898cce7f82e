-- ===== src/Tests.antt =====
-- The theorems at concrete inputs: streams in memory, a cipher and a generator that can be computed.
mod Setup
mod Streams
mod LiteFiles
mod FullFiles
mod FullStreams
mod Tables
mod Texts
mod Folders
mod Paths
mod Names
mod SimpleDirs
mod Links
