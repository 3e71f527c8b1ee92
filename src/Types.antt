-- ===== src/Types.antt =====
-- kernel/libk/include/types.h
-- `enum error_t`
pub data ErrorT : Type 0 where
  error_ok error_occur : ErrorT
