-- ===== src/Utils.antt =====
-- src/utils and src/decode: helpers over texts and JSON values.
pub mod StringUtil
pub mod ValueUtil
pub mod JoinIn
