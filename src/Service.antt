-- ===== src/Service.antt =====
-- services/traffic-steering: the engine that decides where traffic goes, and its flow manager.
pub mod Engine
pub mod Manager
pub mod Best
pub mod Decisions
mod Tests
