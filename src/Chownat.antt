-- ===== src/Chownat.antt =====
-- source/libs/protocols/chownat: UDP hole punching and a tunnel with numbered packets.
pub mod State
pub mod Reason
pub mod Msg
pub mod Confirm
pub mod Disconnect
pub mod Setup
pub mod Punch
pub mod Transfer
pub mod Invariant
pub mod Closing
pub mod Delivery
pub mod Tunnel
pub mod Stream
pub mod Channel
pub mod Opening
pub mod Retransmit
pub mod Knocking
pub mod Backend
pub mod Assembly
pub mod Wire
pub mod Numbering
pub mod EndToEnd
pub mod Program
pub mod Heard
pub mod BothWays
pub mod Seen
pub mod Relaying
pub mod Assembled
pub mod Received
pub mod Genuine
pub mod Upload
pub mod Carrying
pub mod Sent
pub mod Quiet
pub mod Silence
pub mod Fixtures
mod Tests
mod RunTests
mod RelayTests
