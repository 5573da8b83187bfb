-- ===== src/Lib.antt =====
-- Linux USB drivers with a proc file, an activity timer and a work queue, and the character, block,
-- network and terminal drivers beside them.
--
-- The program is a set of kernel modules. misc-modules/ddk_mem.c drives the memory of a USB board:
-- a file of its device is written and read through interrupt endpoints, and control messages keep
-- the read and write offsets on the board equal to the file's position. After each write it reports
-- to misc-modules/ddk_usb_ext.c, which counts it and arms a timer or queues a work item; the
-- timer's callback queues the work item, and the work item blinks the LED through
-- misc-modules/ddk_led.c. A text protocol in /proc/ddk_usb_status sets it up. The scull devices
-- (scull/main.c, pipe.c, access.c) are character devices over kernel memory that share their read,
-- write and ioctl; sculld, scullp, scullv and scullc are the same device over other allocators,
-- three of them with a mapping. sbull/sbull.c is a disk in memory, which the block layer reaches in
-- three modes and whose medium is taken away some time after the last user left it. snull/snull.c
-- is a pair of network devices: a frame sent on one is received on the other, its addresses
-- rewritten, with an interrupt for each packet or by polling. tty/tiny_tty.c is a terminal whose
-- input a timer makes up, and tty/tiny_serial.c is one behind the serial core. short/short.c
-- records the interrupts of a parallel port in a circular buffer, and shortprint/shortprint.c feeds
-- a printer from one.
--
-- Where each part is modelled:
--   Prelude, with Tests, Lists, Options and Int: shared names, Boolean tests, lists, signed
--     integers and the conversions of C between integer widths.
--   Machine: what the drivers call and do not implement (timers, work queue, proc files, user
--     memory, USB core with the board), as a record of operations, and the documented behaviour
--     that theorems rest on, as records of laws. Machine/Bench is a machine that meets all of
--     them, on which the tests run.
--   Ext: misc-modules/ddk_usb_ext.c and ddk_ext.h. `ExtState` is `struct ddk_ext_state`; each
--     function of the file has the definition of its name, which takes the state and the world
--     and returns both. Ext/Proc and Ext/Protocol are about `ddk_proc_write`, Ext/Blink about
--     `blink_worker`, Ext/Writes about the calls of the write path and the timer. Ext/System is
--     the step relation in which the sections under `ext->lock` of all functions interleave.
--   Led: misc-modules/ddk_led.c, and in Led/Offset ddk_led_WR_offset.c and ddk_led_RD_offset.c.
--   Mem: misc-modules/ddk_mem.c; a child for each file operation, with its theorems in Laws
--     below it.
--   MemExtended: misc-modules/ddk_mem_extended.c, the memory driver whose offsets are the
--     module's; MemExtended/Same compares it with Mem.
--   Scull/Dev: scull/main.c and scull.h. Scull/Pipe: scull/pipe.c. Scull/Access:
--     scull/access.c, with Single, User and Cloned for its kinds of devices.
--   Paged: sculld/main.c and sculld/mmap.c, and the code that scullp, scullv and scullc share
--     with them: the operations of the file in the parent, the ioctl in Ioctl, the mapping in
--     Mmap, asynchronous transfers in Aio, loading in Module. It is written for a `Kind`, which
--     says how many bytes a quantum and a block have; Sculld, Scullp, Scullv and Scullc give
--     each program's kind and its functions under their names. Laid is the layout of a device,
--     Run the calls in any order, Overrun and Pages are about blocks of more than a page.
--   Sbull: sbull/sbull.c. `sbull_transfer` and the request functions are in the parent,
--     opening, closing and the media change in Sbull/Media, set up and exit in Sbull/Setup.
--   Snull: snull/snull.c and snull.h. The two devices and their packet buffers are in the
--     parent, the operations in Frame, Interrupt, Transmit, Poll and Setup; Kept is about where
--     the packets are. The kernel's socket buffers and checksum are the record `Kernel`; what
--     is handed to the kernel is kept as a list.
--   Circular: circular buffers of a page, which three drivers have. Short: short/short.c, the
--     probing in Short/Probe, the bottom half in Short/Drain. Shortprint:
--     shortprint/shortprint.c; its buffer as a queue is in Queue, what a write does to it in
--     Order, that the output ends in Progress, loading in Setup. Serial: tty/tiny_serial.c.
--   Tty: tty/tiny_tty.c, the modem control in Tty/Lines, the timer at a close and at the
--     module's exit in Tty/Timed, the timer's function beside the other sections in Tty/Served,
--     and the wait for a line in Tty/Wait.
--
-- Loops are structural recursion but for these: the `while` loop of `ddk_write` ends only if the
-- board takes bytes, so `write_loop` runs on fuel, and `cnt + 1` rounds are proved enough for a
-- board that takes at least a byte at a time; `close_all`, the loop that closes a terminal's port,
-- is proved to need one round more than the port has opens. The loop of `shortp_write` runs on the
-- list of its turns, and as many turns as bytes are proved enough where the work item runs in each.
-- The loop of `short_do_tasklet` runs on fuel, and 512 is proved enough. A wait is given by the
-- list of what the process finds each time it wakes; a list that ends leaves it asleep.
--
-- What the model leaves out: log messages; integer overflow of counts above the kernel's limit for
-- one transfer, and of a position of a file beyond the signed 64 bits of its type; the bytes of an
-- item of the scull devices beyond an `int`, with which, as with 0, a transfer has no result or is
-- a crash, while the number of an item is cut to an `int`; the wrap of the jiffies counter. The
-- quantum, set size and pipe size of a device are natural numbers, since a negative one has no
-- meaning for the code. A copy from the user that faults has copied any number of the first bytes,
-- and in the scull devices but the pipe has put zeros behind them, as the kernel's does. New kernel
-- memory holds arbitrary bytes. A mutex is a flag, and a call that waits for a mutex which nobody
-- gives back has no result. An access outside an array, and one through a NULL pointer, is none, or
-- in Paged the kind of crash. The dumps of the scull devices in /proc are not modelled, nor is
-- scullc/mmap.c, which is not built. In snull each function is one step: two processors inside the
-- same device are not modelled. In tiny_tty.c, which never calls `init_timer`, a new timer is taken
-- for one that is not pending. Not modelled are the registration with kernel subsystems, the other
-- drivers of the repository (simple, skull, lddbus, pci, usb), of tiny_tty.c the proc file, the
-- ioctls that copy a structure out and set_termios, ddk_led_RD_offset_extended.c, probe and
-- disconnect of ddk_mem_extended.c, init and cleanup of short/short.c, the demonstrations in
-- misc-modules and the user programs.
pub mod Prelude
pub mod Circular
pub mod Machine
pub mod Paged
pub mod Led
pub mod Ext
pub mod Mem
pub mod MemExtended
pub mod Scull
pub mod Scullc
pub mod Scullv
pub mod Scullp
pub mod Sculld
pub mod Sbull
pub mod Snull
pub mod Short
pub mod Shortprint
pub mod Tty
pub mod Serial
