-- ===== src/Content.antt =====
-- realtube-extension/src/content: the content scripts, which run in the pages of YouTube.
pub mod DomUtils
pub mod Hide
pub mod Scan
pub mod Shorts
pub mod VoteUi
pub mod Session
