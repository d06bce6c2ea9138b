-- ===== src/Tests.antt =====
-- Concrete inputs at which the theorems' hypotheses hold, and runs of the code on them.
mod Mesh
mod Lobbies
mod Packets
mod Buffer
mod Messages
mod Rooms
mod Callbacks
mod Json
mod Peers
mod Routing
