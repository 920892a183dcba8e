-- ===== src/Files.antt =====
-- Utils/FileManager over the file system of the platform.
pub mod Listing
pub mod System
pub mod Hash
pub mod Manager
