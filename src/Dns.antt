-- ===== src/Dns.antt =====
-- internal/dnswatch: the inspection of the server's DNS traffic.
pub mod Wire
pub mod Message
pub mod Names
pub mod Safety
pub mod Parse
pub mod RoundTrip
mod Examples
