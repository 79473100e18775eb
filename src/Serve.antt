-- ===== src/Serve.antt =====
-- serve.go and metrics.go: the routes of the provider, what guards them, and what is counted of the
-- requests. The router, the metrics' registry and the server's run are outside; a handler that the
-- code does not compare with nil is taken to be there.
pub mod Instrument
pub mod Routes
mod Tests
