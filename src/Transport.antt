-- ===== src/Transport.antt =====
-- mobile/src/api/transport.ts. `Tokens` is the stored tokens and what an answer to a refresh does to
-- them, `Network` the requests of `authenticatedFetch` as steps that interleave, `Results` the
-- unwrapping of results; `SingleFlight` and `Ending` have the proofs.
pub mod Tokens
pub mod Results
pub mod Network
pub mod SingleFlight
pub mod Ending
mod Tests
