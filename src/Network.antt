-- ===== src/Network.antt =====
-- Utils/NetworkManager: packets, their form on the wire, the socket calls and the loops over
-- them, the making of sockets, and lists of text in a payload.
pub mod Packet
pub mod ByteOrder
pub mod Wire
pub mod Kernel
pub mod Loops
pub mod Manager
pub mod Sockets
pub mod Setup
pub mod Channel
pub mod Lists
pub mod Printing
