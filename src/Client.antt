-- ===== src/Client.antt =====
-- client/: polling, the retries of a request, the clock, and what is known of the server.
pub mod CommLoss
pub mod PollRate
pub mod Polling
pub mod Retry
pub mod State
pub mod Timebase
pub mod Tests
