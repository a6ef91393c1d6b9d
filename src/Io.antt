-- ===== src/Io.antt =====
-- The input and output layer: io/*.hpp.
pub mod TimingWheel
pub mod EventLoopThread
pub mod EventLoopPool
pub mod IoUring
pub mod AsyncIo
pub mod EventLoop
pub mod TimedAwaiters
mod Tests
