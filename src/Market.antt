-- ===== src/Market.antt =====
-- Records of market feeds: the companies that they are matched with and the rows that they become.
pub mod Match
pub mod Feed
pub mod Subscribed
mod Tests
