-- ===== src/Lib.antt =====
-- NixCore OS is a hobby operating system in C: a 32-bit kernel with a shell, a file system that lives
-- in memory and a desktop, and a 64-bit kernel with page tables, threads and a C library. This library
-- models the parts of it that keep the state the rest of the system relies on, and proves what the
-- callers of those parts need.
--
-- Base: names of the libraries, passed on, with Boolean tests, lists and integers over native numbers.
--
-- Alloc: the two allocators that keep a list of blocks.
--   Alloc.Blocks    what they share: the list by addresses, the split of a block (`carve`, `place`),
--                   the joins (`merge_next`, `merge_prev`, `release`)
--   Alloc.Kheap     lib/memory.c: memory_init, kmalloc (`best_fit`, `grant`), kfree (`take_back`); the
--                   state `Heap` is heap_start, memory_used and memory_peak
--   Alloc.Malloc    lib/libc/libc.c: malloc, free, calloc, realloc; the state `Arena` is the list of
--                   blocks, absent before the first call, and the bytes of memory. The address that
--                   the first call gets from kmalloc is a parameter.
--
-- Mem: memcpy, memmove, memset, memcmp and memchr of lib/libc/libc.c, and the loops of those in
--   lib/memory.c, on memory as a function from addresses to bytes.
--
-- Mm: kernel/mm/mm.c.
--   Mm.Bits, Mm.Pmm   the page bitmap: the first part of mm_init (`init`), pmm_alloc_page
--                     (`take_page`), pmm_free_page
--   Mm.Vmm            page tables in memory as 64-bit words: pmm_alloc_page with the clearing of the
--                     page, vmm_map_page (`next_table` is its block "get or create"),
--                     page_fault_handler, and the bump allocator kmalloc of this file. `walk` is what
--                     the processor reads for an address.
--
-- Sched: kernel/sched/process.c, the ready queues and the switch between threads. A pointer to a thread
--   is its index in the table; the queues are the lists that the `next` pointers spell out
--   (Sched.Queues).
--
-- Text: lib/string.c. A string is the list of its bytes before the terminating zero.
--
-- Fs: fs/filesystem.c, which calls lib/memory.c (Alloc.Kheap, Mem) and lib/string.c (Text). The table
--   is the list of the entries below file_count. `table_image` is what filesystem_save_to_disk copies over
--   disk_buffer and what lies behind it; where that is, the size of the table and the bytes of its
--   copy are the compiler's, and fields of `Layout`. The variables of the model, and the headers of
--   the heap's blocks, are taken to lie elsewhere.
--
-- Libc: the string functions of lib/libc/libc.c that differ from those of lib/string.c.
--
-- Format: lib/printf.c and the conversions of lib/libc/libc.c. Format has itoa and uitoa on the bytes of their
--   buffer (`put_numeral` is the body that they share), atoi, strtol, the character classes and rand;
--   Format.Printf has vsprintf (`directive` is its switch) and vprintf (`print_directive`, on top of
--   print_number). Arguments are values of `Arg`.
--
-- Nixlang: lang/nixlang.c, the variables of the interpreter and the statements that change them, on top of Text
--   (strcmp, strncpy, strchr, strstr) and Format (the sprintf of lib/printf.c).
--
-- Vfs: kernel/fs/vfs.c. The operations that a file system installs are the parameter `Operations`, over its
--   own inodes and state; the walk along a path is `walk`.
--
-- Clock: kernel/time.c, the clock, dates (`date_of` holds the two loops), weekdays and names. Clock.Months
--   has the calendar that they are compared with.
--
-- Link: drivers/network.c, the packets of Ethernet, ARP, IP, ICMP, UDP and TCP. The state `Link` is net_if,
--   arp_table and tx_cur, and the frames that were handed to the card.
--
-- Net: kernel/net/socket.c, sockets on top of Link (tcp_send, udp_send), byte order, and the packets of the
--   DNS and DHCP clients.
--
-- Keyboard: drivers/keyboard.c, the ring buffer, the decoding of scan codes and keyboard_process. The
--   handler's calls of the screen and the shell are values.
--
-- Fat32: kernel/fs/fat32.c, mounting (`fat_bytes` is the loop that reads the table), directories and files
--   on a disk that is a parameter. Fat32.Entries has the entries of a directory as bytes, Fat32.Opened reads
--   through Vfs.
--
-- Pseudo: the file systems without a disk. Pseudo.Devfs is kernel/fs/devfs.c, on top of rand (Format),
--   Pseudo.Sysfs kernel/fs/sysfs.c and Pseudo.Procfs kernel/fs/procfs.c, on top of atoi and the sprintf of
--   lib/printf.c (Format). Names are compared by strcmp (Text).
--
-- Vga: drivers/vga.c, the terminal: its history, the view of it and the screen. vga_write_string decodes by
--   utf8_to_ascii (Text). Vga.Runs has the calls of include/vga.h as steps.
--
-- Mouse: drivers/mouse.c, packets of three bytes, the position and the buttons.
--
-- Snake: games/games.c, a round of the loop of game_snake as a step (`round`).
--
-- Mines: apps/apps.c, the board of minesweeper: a new game, revealing with its recursion over the
--   neighbours, and flags.
--
-- Bounds and fuel. Words wrap where the source's do: `size_t` has 32 bits in lib/memory.c and
-- fs/filesystem.c and 64 bits in the C library and the 64-bit kernel. The walk to the last
-- thread of a queue has max_threads rounds, and the theorems ask that a queue be no longer, as
-- it can hold each thread of the table only once. The loop over the tokens of a path takes its
-- rounds as an argument: 256 are enough, since each token takes at least one byte of the 255
-- that are kept of a path. After the last token strtok reads the string at address 0, which is a
-- further argument. keyboard_process has as many rounds as characters wait. The loop over the
-- years gets one round more than the days hold 365, the loops over digits 32 and 63 rounds, one for each
-- bit, the folding of a checksum 3 rounds, and vprintf one for each byte of the format. A read of FAT32
-- has as many rounds as bytes are to be read, a look-up one more than the chain has clusters, vga_write_string
-- one for each byte, and revealing a cell of minesweeper one more than there are hidden cells. The
-- theorems about them show that this is enough for the arguments they name.
--
-- Buffers. Where the source fills a local array without a check, the definitions have lists of any length,
-- say so, and the theorems bound them: the component of a path has fewer than 256 bytes, the path
-- of a mount fewer than 1024, a packet at most 1500 and a DNS query at most 512.
--
-- Not modelled: inline assembly (the switch of registers, the flush of the TLB, `hlt`), the registers
-- of the network card and the disk and the other ports, the sectors of the disk behind the file system in
-- memory and the text that it formats, the drawing of the graphical interface, the text that the
-- applications and the games put out, ext2, whose code reads no block yet and returns what
-- memory held before, and, so far, ntp_sync, the windows and services of the
-- desktop, and the statements of NixLang that are about files, and the shell.
pub mod Base
pub mod Alloc
pub mod Mem
pub mod Mm
pub mod Sched
pub mod Text
pub mod Libc
pub mod Format
pub mod Nixlang
pub mod Fs
pub mod Vfs
pub mod Clock
pub mod Link
pub mod Net
pub mod Keyboard
pub mod Fat32
pub mod Pseudo
pub mod Vga
pub mod Mouse
pub mod Snake
pub mod Mines
