-- ===== src/Tests.antt =====
-- Each theorem of the header at an input, and tests.
mod Fixtures
mod Breaker
mod Retries
mod Sums
mod Requests
mod Cases
mod Settings
mod Assertions
mod Loading
mod Replies
mod Process
mod Reported
mod Permits
