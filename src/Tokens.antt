-- ===== src/Tokens.antt =====
-- burner_tokens.py and invite_tokens.py: tokens that live under their own keys, and the set of each
-- owner or group that lists them.
pub mod Shelf
pub mod Burner
pub mod Invite
