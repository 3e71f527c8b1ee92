-- ===== src/Memory/Tests.antt =====
-- The theorems on memset and memcpy, and the two at work, on a memory of bytes.
use radix_os.Base.{arith, inl, refl, ◌%◌, ◌≡◌}
use radix_os.Memory.{get_word, put_byte, put_word, copy_words, copy_bytes, Bytes, memset, memcpy}
use radix_os.Memory.Set.{memset_lem}
use radix_os.Memory.Copy.{memcpy_lem}

abbrev some_bytes : Bytes
some_bytes = λ a. a % 256

memset_odd_length : memset 10 7 6 some_bytes 15 ≡ 7
memset_odd_length = memset_lem 10 7 6 some_bytes 15 (omega arith)

memcpy_lem_example : memcpy 10 12 7 some_bytes 16 ≡ 18
memcpy_lem_example = memcpy_lem 10 12 7 some_bytes 16 (λ a. omega arith) (inl (omega arith))

-- Where the destination begins in the source, a byte that was written is read again.
memcpy_overlap : memcpy 12 10 7 some_bytes 14 ≡ 10
unfolding memcpy copy_bytes copy_words put_word put_byte get_word
memcpy_overlap = refl
