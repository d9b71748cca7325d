-- ===== src/FsService.antt =====
-- internal/usecase/fs: the file service between the HTTP handlers and the file system client.
pub mod Resolve
pub mod Operations
pub mod Service
pub mod Recorder
pub mod Recovery
