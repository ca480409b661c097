-- ===== src/Players.antt =====
-- player_state.go and server.go: what the runtime owner keeps of the players, and what other goroutines see.
pub mod Snapshot
pub mod Roster
pub mod Runtime
