-- ===== src/Storage.antt =====
-- src/storage/storage_manager.py: volumes, snapshots and backups. Python's checks run on the
-- tables of `VolumeManager`; what the file system does is a parameter of the operation that asks.
pub mod Volumes
pub mod Backups
pub mod Attachment
pub mod History
pub mod Cleanup
pub mod Restoring
