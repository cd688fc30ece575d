-- ===== src/Format/Tests.antt =====
-- Numbers printed into a buffer that is not empty.
use nix_core_os.Base.{ℕ, ◌≡◌, [], negsuc, arith}
use nix_core_os.Format.{text, itoa, atoi, strtol}
use nix_core_os.Format.Reading.{strtol-itoa}

abbrev buffer : ℕ → ℕ
buffer i = 120

strtol-itoa_example :
    (strtol (text 34 (itoa buffer (negsuc 41)) 0) 10 ≡ (negsuc 41, []))
    × (atoi (text 34 (itoa buffer (negsuc 41)) 0) ≡ negsuc 41)
strtol-itoa_example = strtol-itoa buffer (negsuc 41) (omega arith)
