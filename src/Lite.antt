-- ===== src/Lite.antt =====
-- The lite format, where each file of the user is one encrypted file below (sources/lite_*.cpp).
pub mod Stream
pub mod Names
pub mod FileSystem
