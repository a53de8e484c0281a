-- ===== src/Xcclient.antt =====
-- internal/xcclient: the hub's side of the connection to the scraper.
pub mod Demand
