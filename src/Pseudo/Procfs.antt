-- ===== src/Pseudo/Procfs.antt =====
-- kernel/fs/procfs.c: files made when they are read. `sprintf` is that of lib/printf.c, over a
-- buffer of `itoa` with `temp` in it before; `total_pages` and `free_pages` are those of the page
-- allocator. A format that `sprintf` has no result for does not occur.
pub mod Contents
use nix_core_os.Base.{
  ℕ, zero, suc, ◌+◌, ◌-◌, ◌*◌, ◌/◌, ◌%◌, ◌^◌, Bool, true, false, List, [], ◌∷◌, Option, none, some,
  ltb, leb, ◌==◌, if◌then◌else◌, ℤ, pos, negsuc, codes, length, take, drop,
}
use nix_core_os.Text.{strcmp, is_zero}
use nix_core_os.Format.{atoi}
use nix_core_os.Format.Printf.{Arg, vsprintf}
use nix_core_os.Pseudo.{Inode, directory, regular}

abbrev pub procfs_get_root : Inode
procfs_get_root = record { ino = 1; kind = directory; permissions = 365; size = 0 }

-- A file with permissions 0444.
abbrev file : ℕ → ℕ → Inode
file ino size = record { ino = ino; kind = regular; permissions = 292; size = size }

-- The branch for a process, in 32 bits.
abbrev pub process : ℤ → Option Inode
process (negsuc n) = none
process (pos zero) = none
process (pos (suc n)) =
    some (record { ino = (1000 + suc n) % 2 ^ 32; kind = directory; permissions = 365; size = 0 })

pub procfs_lookup : List ℕ → Option Inode
procfs_lookup name =
    if is_zero (strcmp name (codes "cpuinfo"))
    then some (file 2 1024)
    else if is_zero (strcmp name (codes "meminfo"))
    then some (file 3 1024)
    else if is_zero (strcmp name (codes "version"))
    then some (file 4 256)
    else if is_zero (strcmp name (codes "uptime"))
    then some (file 5 64)
    else if is_zero (strcmp name (codes "loadavg"))
    then some (file 6 64)
    else process (atoi name)

abbrev cpuinfo : List ℕ
cpuinfo =
    codes
      "processor\t: 0\nvendor_id\t: GenuineIntel\ncpu family\t: 6\nmodel\t\t: 142\nmodel name\t: Intel(R) Core(TM) i7-8550U CPU @ 1.80GHz\nstepping\t: 10\nmicrocode\t: 0xb4\ncpu MHz\t\t: 1800.000\ncache size\t: 8192 KB\nphysical id\t: 0\nsiblings\t: 4\ncore id\t\t: 0\ncpu cores\t: 4\nflags\t\t: fpu vme de pse tsc msr pae mce cx8 apic sep mtrr pge mca cmov\n"

abbrev pub meminfo : List ℕ
meminfo =
    codes
      "MemTotal:       %llu kB\nMemFree:        %llu kB\nMemAvailable:   %llu kB\nBuffers:        0 kB\nCached:         0 kB\nSwapTotal:      0 kB\nSwapFree:       0 kB\n"

abbrev version : List ℕ
version =
    codes
      "NixCore version 1.0.0 (nixcore@localhost) (gcc version 13.2.0) #1 SMP PREEMPT Wed Apr 16 00:00:00 UTC 2026\n"

abbrev process_info : List ℕ
process_info = codes "Name:\tprocess%d\nState:\tR (running)\nPid:\t%d\nPPid:\t1\nThreads:\t1\n"

-- A word of 32 bits as an `int`.
abbrev pub int_of : ℕ → ℤ
int_of n = if ltb n (2 ^ 31) then pos n else negsuc (2 ^ 32 - 1 - n)

-- What `sprintf` writes to the buffer.
pub contents : (ℕ → ℕ) → ℕ → ℕ → ℕ → Option (List ℕ)
contents temp total_pages free_pages ino =
    let pid = int_of (ino - 1000) in
    let pages = λ (n : ℕ). Arg.long_uint (n * 4 % 2 ^ 64) in
    if ino == 2
    then vsprintf temp cpuinfo []
    else if ino == 3
    then vsprintf temp meminfo (pages total_pages ∷ pages free_pages ∷ pages free_pages ∷ [])
    else if ino == 4
    then vsprintf temp version []
    else if ino == 5
    then vsprintf temp (codes "12345.67 12345.67\n") []
    else if ino == 6
    then vsprintf temp (codes "0.00 0.00 0.00 1/100 1234\n") []
    else if leb 1000 ino
    then vsprintf temp process_info (Arg.int pid ∷ Arg.int pid ∷ [])
    else some []

-- The bytes that are stored; their number is the result.
pub clipped : List ℕ → ℕ → ℕ → List ℕ
clipped text count offset =
    if leb (length text) offset
    then []
    else let count' =
        if ltb (length text) ((offset + count) % 2 ^ 64) then length text - offset else count in
      take count' (drop offset text)

abbrev pub procfs_read : (ℕ → ℕ) → ℕ → ℕ → Inode → ℕ → ℕ → Option (List ℕ)
procfs_read temp total_pages free_pages inode count offset =
    elim (contents temp total_pages free_pages inode.ino) [
      | none ↦ none
      | some text ↦ some (clipped text count offset)
    ]
