-- ===== src/Testing.antt =====
-- include/boost/capy/test: the fuse and the streams that the library's tests run over.
pub mod Fuse
pub mod ReadStream
pub mod WriteStream
pub mod Stream
