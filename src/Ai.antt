-- ===== src/Ai.antt =====
-- internal/domain/ai: the choice of a model for a request.
pub mod Model
pub mod Strategies
pub mod Chain
pub mod Lists
pub mod Windows
pub mod Selection
pub mod Emptiness
pub mod Soundness
pub mod Choice
pub mod Ports
pub mod Routing
pub mod Routes
pub mod Health
pub mod Recovery
pub mod Examples
pub mod RouteExamples
