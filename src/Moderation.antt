-- ===== src/Moderation.antt =====
-- packages/moderation/src: which names are refused. The engine of @2toad/profanity is a parameter.
pub mod Leetspeak
pub mod Profanity
pub mod Gate
