-- ===== src/Pipeline.antt =====
-- internal/pipeline
pub mod Parallel
pub mod Position
pub mod Ring
pub mod Restart
pub mod Marks
pub mod Delay
pub mod Errors
pub mod Drain
pub mod Rotation
pub mod Phases
pub mod Poll
pub mod Watch
pub mod Scheduler
