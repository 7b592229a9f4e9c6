-- ===== src/Files.antt =====
-- The files of a module: src/storage/FileDescriptor.cpp, FileSystem.cpp and SharedFiles.cpp. The
-- system calls, the file loader and the constants of WASI and Linux are arguments.
pub mod Dirents
pub mod Listing
pub mod Descriptors
pub mod Rights
pub mod Access
pub mod ReadOnly
pub mod Shared
pub mod PathOpen
pub mod Missing
pub mod Sync
pub mod Operations
pub mod Complete
pub mod Reading
