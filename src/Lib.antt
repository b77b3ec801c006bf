-- ===== src/Lib.antt =====
-- A verification of ps2-side-dumper: the USB side dumper for the OHCI host controller driver of the
-- PlayStation 2's Linux kernel, and the parts of that driver that do not only touch hardware.
--
-- The driver (portable-ohci-core.c) takes urbs from the USB stack, allocates for each the memory
-- that the I/O processor can reach (portable-ohci-ps2.c), links endpoint and transfer descriptors,
-- and returns the urbs that are done. On submission and return it calls the dumper
-- (side_dumper_core.c), which looks up the settings of the urb's device and dumps the urb as text
-- at once, or copies it to a queue for a worker thread. The settings are read and written through
-- proc files (side_dumper_procfs.c).
--
-- Base: the names shared by all modules; Boolean tests, C arrays as lists, outcomes that fault.
-- LocalMem: the allocator of portable-ohci-ps2.c (GrowLocalMem, CleanupLocalMem, FreeLocalMem,
--   AllocLocalMem, Portable_AllocateOhci, Portable_FreeOhci). A `struct mb` chain is the list of its
--   blocks, head first; `none` is an access outside of `local_mems`. Owned counts the blocks that
--   hold a byte; Release, Alloc, Supply and Grow prove. UrbCopy has the copies of an urb's buffers
--   (Portable_PrepareUrbOnSubmit, Portable_PrepareUrbOnReturn, Portable_FreeUrb), with their
--   contents in UrbCopy/Contents and the instructions of QuadCopy in UrbCopy/Quad.
-- Usb: what is used of linux/usb.h. Text: the number formats of sprintf.
-- Mini: the settings and the copy of an urb (side_dumper.h), and the inline helpers.
-- Dump: DumpUrb and the dumpers under it. sprintf into `pszOut` is the concatenation of bytes;
--   Chunks is the loop of DumpUrbToPrintk that prints line by line.
-- Dumper: the instance `g_Inst`, the settings, InitMini, QueueUrb, ProcessMini and the two hooks;
--   Dumper/Worker has WorkerThreadEntry, SideDumper_InstallDumper and SideDumper_RemoveDumper as
--   steps of a transition system, in which a semaphore is its count.
-- ProcFs: the read and write handlers of side_dumper_procfs.c with their parser; ProcFs/Install has
--   InstallProcFs and RemoveProcFs as the calls that they make.
-- Ohci: of portable-ohci-core.c the balancing of the interrupt branches (Branches), the transfer
--   descriptors of an urb (Transfer: sohci_submit_urb's count and td_submit_urb), the virtual root
--   hub (Hub: rh_submit_urb, rh_send_irq in Hub/Irq, and the timer in Hub/Timer), and the
--   controller's reset, start and power management (Controller: hc_reset, hc_start, hc_reinit_ohci,
--   handle_pm_event).
--   Endpoints has ep_link and ep_unlink over a memory of `ed_t` by address, with the tree of the
--   interrupt endpoints in Endpoints/Tree; Segment, Chain, Removal, Linked, Unlinked and Refines follow
--   the two linked lists, Run sets a run of calls beside two plain lists, and Slots, Entries,
--   Cleared and Relinked are about the entries of the hcca's table, and Balance about the loads over
--   any run of calls. Queue has td_fill over a memory of `td_t`. Submit has sohci_submit_urb,
--   urb_rm_priv, ep_add_ed and ep_rm_ed, built of Endpoints, Queue, LocalMem and UrbCopy. Done has
--   dl_reverse_done_list and
--   dl_transfer_length, Done/Del has dl_del_list, Done/Return has sohci_return_urb and dl_done_list.
--   Unlink has sohci_unlink_urb, and Interrupt has hc_interrupt, built of the parts of Done.
--   Devices has sohci_alloc_dev and sohci_free_dev, built of Endpoints and Submit, and Driver has
--   hc_alloc_ohci, hc_found_ohci, hc_release_ohci and ohci_hcd_cleanup, built of Controller and
--   LocalMem/Portable, over a memory of controllers in which freed memory has no contents. A bus
--   address is taken for the same number as the address. The dumper's hooks and its installation and
--   removal write only the dumper's own state, which Dumper models: in Submit and Done/Return an
--   argument says whether a hook comes back, and Driver keeps whether there is a worker, for whose
--   end SideDumper_RemoveDumper waits.
--
-- Bounds and fuel: numbers are natural numbers; the one counter that wraps, the generator of urb
-- numbers, is taken modulo 2 ^ 32. The loop over the lines of a text has a round more than the text
-- has bytes, which is proved enough. The loop of DumpCD and the parser of the proc files need not
-- end in the source, so they take fuel from outside, and the theorems say when it is enough. The
-- loops of the driver recurse on what the source counts, or take fuel where they follow links: the
-- theorems on them state how much is enough, and those on the lists of control and bulk endpoints
-- hold for any.
--
-- What the kernel does is an argument: the answers of kmalloc and ps2sif_allociopheap, the value of
-- isprint, simple_strtoul, usb_root_hub_string, and what registers read as. So are the
-- completion handler of an urb, usb_gettoggle, and what happens while a caller sleeps.
--
-- Not modelled: the flushes of the caches; sohci_get_current_frame_number, which only reads a field;
-- CleanMini, which only releases a copy; and the output that is compiled for debugging only.
pub mod Base
pub mod LocalMem
pub mod Usb
pub mod Text
pub mod Mini
pub mod Dump
pub mod Dumper
pub mod ProcFs
pub mod Ohci
