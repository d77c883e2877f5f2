-- ===== src/Query.antt =====
-- QueryCodec.h: from the text of a query to the byte code that the enclave runs.
pub mod Tokens
pub mod Parser
pub mod Safety
pub mod Encode
