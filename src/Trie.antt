-- ===== src/Trie.antt =====
-- evaluation/fixtures/trie/gen.py.
pub mod Nibbles
pub mod Walk
pub mod Chain
pub mod Accounts
pub mod Updates
