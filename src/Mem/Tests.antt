-- ===== src/Mem/Tests.antt =====
-- Runs of the memory functions, and the theorems at concrete memories.
use nix_core_os.Base.{◌%◌, ◌≡◌, refl, some}
use nix_core_os.Mem.{Mem, load64, store64, copy_bytes, copy_words, memcpy, memchr}

-- Every address holds its own low byte.
abbrev ramp : Mem
ramp a = a % 256

memcpy_words : memcpy ramp 64 16 11 74 ≡ 26
unfolding memcpy copy_bytes copy_words load64 store64
memcpy_words = refl

memchr_runs : memchr ramp 5 300 50 ≡ some 44
unfolding memchr
memchr_runs = refl
