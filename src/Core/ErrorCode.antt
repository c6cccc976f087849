-- ===== src/Core/ErrorCode.antt =====
-- crates/themql-core/src/lib.rs: `ErrorCode` and its `Display`.
use the_mql.Base.Text.{Text, codes}

pub data ErrorCode : Type 0 where
  transport_error resolver_error cache_miss validation_error timeout internal_error : ErrorCode

unfoldable pub error_code_text : ErrorCode → Text
error_code_text transport_error = codes "transport_error"
error_code_text resolver_error = codes "resolver_error"
error_code_text cache_miss = codes "cache_miss"
error_code_text validation_error = codes "validation_error"
error_code_text timeout = codes "timeout"
error_code_text internal_error = codes "internal_error"
