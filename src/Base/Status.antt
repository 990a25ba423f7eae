-- ===== src/Base/Status.antt =====
-- `DltReturnValue` (include/dlt/dlt_types.h).
pub data DltReturnValue : Type 0 where
  file_size_error logging_disabled user_buffer_full : DltReturnValue
  wrong_parameter buffer_full pipe_full pipe_error : DltReturnValue
  return_error return_ok return_true : DltReturnValue
