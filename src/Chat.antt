-- ===== src/Chat.antt =====
-- worker/src/agentstorm_worker/adapters/openai_compatible.py: the Chat Completions client, by its
-- parts.
pub mod Validators
pub mod Construction
pub mod Codes
pub mod Ledger
pub mod Completion
pub mod Post
pub mod Tools
pub mod Run
