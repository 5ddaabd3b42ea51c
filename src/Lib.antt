-- ===== src/Lib.antt =====
-- A verification library for the kernel and its drivers.
--
-- Parts and files:
--   Base      shared helpers: tests on native numbers, arrays as functions of an index, 32-bit sums,
--             bits, counting, and integers.
--   Pmm       kernel/mm/pmm.c: pmm_init, pmm_alloc_frame, pmm_free_frame and the two counters; the
--             bitmap is a function from indices to bytes.
--   Proc      kernel/proc/process.h: threads, processes and the kernel's global state. A thread_t* is
--             the slot's number plus one, NULL is 0. Table is alloc_process and alloc_thread of
--             kernel/proc/process.c, Stack setup_kernel_stack and setup_user_stack, Create
--             proc_init, proc_exit and proc_create_kernel, which uses Pmm and Sched, and User
--             proc_create_user, which uses Vmm too. System is the processes and the scheduler under
--             timer interrupts, yields, exits and creations in any order, as a step relation, and
--             System/Boot what kernel/main.c starts.
--   Sched     kernel/proc/scheduler.c: queue_insert, queue_remove, queue_next_ready, scheduler_init,
--             scheduler_add_thread, scheduler_remove_thread, scheduler_tick, scheduler_yield. It
--             changes the kernel's state of Proc and looks up processes there.
--   Gui       drivers/video/vga/vga_gui.c: the keyboard buffer, the queue of mouse events, the
--             drawing of windows on the screen of Vga, the console, the clock and the trail of the mouse.
--   Input     drivers/input/ps2mouse.c: MouseRead and the pointer's state.
--   Screen    kernel/screen.c: the text buffer, the cursor, scrolling and printing.
--   Libc      lib/memory.c: the bump allocator, the memory functions and the string functions.
--   Loader    boot/freeldr/disk.c (Disk, Retry), boot/freeldr/memory.c (Memory) and boot/freeldr/video.c
--             (Video, Print): the conversion of sector numbers, the retries of a read, the memory map
--             and its sums, and the text output. The BIOS is a parameter.
--   Desc      kernel/interrupt/gdt.c and kernel/interrupt/idt.c: the descriptor tables and, in Report, the
--             reports of faults on the screen of Screen and on the serial port. Tss is
--             kernel/interrupt/tss.c.
--   Io        drivers/framework/io_manager.c and drivers/framework/device.c: drivers, devices and names,
--             on the heap of Libc.
--   Vmm       kernel/mm/vmm.c: page directories and tables, on the frames of Pmm. Walk is the
--             processor's translation, Map what vmm_map_page and vmm_unmap_page do to it.
--   Vga       drivers/video/vga/vga_screen.c: the picture in g_shadow and the planes of the video
--             memory. Show is about single pixels, Fill about VgaFillRect, Text
--             about vga_font.c, Cursor about vga_cursor.c, and Line
--             about VgaDrawLine and VgaDrawRect.
--   Syscall   kernel/interrupt/syscall.c: the checks of a program's pointers against the page tables of
--             Vmm, the copies, and the dispatch to Vga, Gui, Sched and Proc.
--   Bootvid   boot/bootvid/bootvid.c: the graphics of the boot loader in mode 13h and the palette; the
--             calls of the BIOS are a parameter.
--   Splash    kernel/boot_splash.c: the picture that the kernel shows while it starts, its square root,
--             its progress bar and its palette. Frame carries a property of the framebuffer through
--             every drawing operation; Font is the copy of the font to the video memory.
-- Each part declares its state as a record and its operations as functions that take the state and
-- return it; the names are the source's without the common prefix. A `Tests` module has runs.
--
-- Bounds and fuel: unsigned words are natural numbers with `% 2 ^ 32` where the source can wrap. The
-- scheduler's loops follow `next` pointers on a fuel of 32, the number of threads (MAX_THREADS): a
-- ring of distinct threads is no longer, and the theorems of Sched show that the loops return.
-- The loop over the memory map has a fuel of 32, the size of its array, and the retries of a
-- read are the three of the source. The string functions take their fuel as an
-- argument; the length of the string plus one is enough. ConsoleProcess has a fuel of 128,
-- the size of the keyboard buffer,
-- VgaDrawLine one more than the distances of its end points, and isqrt two more than half of its
-- argument. These two and the progress bar have no result where the source overflows an int or divides
-- by 0.
--
-- Not modelled: port input and output, inline assembly, debug output on the serial port and on the
-- screen but for the reports of faults, and the entry code of the interrupts.
pub mod Base
pub mod Bootvid
pub mod Pmm
pub mod Proc
pub mod Sched
pub mod Gui
pub mod Input
pub mod Screen
pub mod Libc
pub mod Loader
pub mod Desc
pub mod Io
pub mod Vmm
pub mod Vga
pub mod Syscall
pub mod Splash
