-- ===== src/Xfer.antt =====
-- The host's side of the USB protocol, src/xfer.cpp.
pub mod Link
pub mod Direct
pub mod Receive
pub mod Downloads
pub mod Upload
pub mod Interrupt
pub mod Attempt
pub mod Exchange
pub mod Remote
pub mod SdTarget
pub mod SdTransfer
pub mod SdUploads
pub mod SdDownloads
pub mod Progress
pub mod Listing
pub mod SdInterrupt
pub mod Sync
pub mod Session
mod ListingTests
mod RemoteTests
mod SyncTests
mod Tests
