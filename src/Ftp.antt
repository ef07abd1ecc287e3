-- ===== src/Ftp.antt =====
-- source/ftp.c: the FTP server.
pub mod Split
pub mod Reply
pub mod Session
pub mod Account
pub mod Files
pub mod Numbers
pub mod Data
pub mod Site
pub mod Dispatch
pub mod Job
pub mod Cleanup
pub mod Sound
pub mod Listing
pub mod Events
pub mod Server
