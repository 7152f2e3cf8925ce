-- ===== src/Lib.antt =====
-- Verification library of the drivers of the training course "Developing Linux Device Drivers".
--
-- The repository is a collection of kernel modules, one or two for each chapter of the course. A
-- module is an init function, an exit function and a few handlers that the kernel calls: file
-- operations, interrupt handlers and bottom halves, timers, sysfs attributes, network operations.
-- Most modules include a header with a generic device (a RAM disk with read and write, and its
-- registration) and add their own handlers to it. Each driver that is modelled has a module of
-- this library with a record for its static variables and one function for each handler, named as
-- in the source.
--
-- The shared part:
-- - Base: numbers, words of 32 and 64 bits (Base.Words: `to_int` is the conversion to a 32-bit
--   `int`, `extend` the one to a 64-bit type) and sequences of steps (Base.Steps).
-- - Kernel: the kernel's side, which is not in the repository. Kernel.UserAccess is a record of
--   copy_to_user and copy_from_user with their documented behaviour, which the drivers take as a
--   parameter, and Kernel.FullAccess one instance of it. Kernel.Words has words in memory, and
--   Kernel.Splice block copies. Kernel.Ledger lists the calls that
--   acquire and release something, and settles the account of loading and unloading a module; the
--   answers of the kernel are arguments of the init functions.
--
-- The drivers:
-- - CharDevice: chapter_13_mem_user_and_kernel_space/get_and_put_user/generic_char_driver.h, the
--   device that other drivers include; its handlers (with CharDevice.Bounds and
--   CharDevice.Contents) and its registration (CharDevice.Module).
-- - PutGet: put_and_get_driver.c beside it, which transfers byte by byte; it has the disk of
--   CharDevice, and PutGet.Laws compares the two.
-- - CharDrivers: sample/sample_char_driver.c, improve_sample/improve_char_driver.c,
--   memory_allocation/memory_allocation.c and todo/lab_cache.c of chapter_11_character_drivers;
--   todo/lab_char.c (CharDrivers.Char), lab_dynamic.c (CharDrivers.Dynamic), lab_dynamic_udev.c
--   (CharDrivers.Udev), lab_misc.c and sample_misc_driver.c (CharDrivers.Misc) and lab_char.h
--   (CharDrivers.Header) there, by the functions whose text they repeat; CharDrivers.Versions
--   compares them. The lab_char.h headers of chapters 18, 19, 21, 22 and 23 are
--   CharDrivers.Header.KernelTimers, Ioctls, Firmware, Waiting and Deferrable, by the same functions.
-- - Ioctl: basic_ioctls/basic_ioctl.c (with basic_ioctl.h), todo/lab_ioctl_data.c,
--   todo/lab_ioctl_vardata.c and todo/lab_ioctl_signal.c of chapter_19_ioctls; and the programs
--   that call them (Ioctl.Programs): basic_ioctls/basic_ioctl_app.c, todo/lab_ioctl_data_test.c,
--   todo/lab_ioctl_vardata_test.c and todo/lab_ioctl_signal_test.c.
-- - Interrupt: of chapter_23_deferrable_functions, lab_one_interrupt.h with lab_one_tasklet.c,
--   lab_one_tasklet_improved.c, lab_one_tasklet_dynamic.c, lab_one_thread.c,
--   lab_one_thread_improved.c, lab_one_threaded.c, lab_one_workqueue.c and
--   lab_one_workqueue_dynamic.c (Interrupt.DynamicWork);
--   lab_all_interrupt.h with lab_all_tasklet.c, and over it lab_all_threaded.c,
--   lab_all_tasklet_dynamic.c, lab_all_thread.c and lab_all_workqueue.c (Interrupt.AllLines.Threaded,
--   Dynamic, Thread and WorkQueue) and lab_all_workqueue_dynamic.c
--   (Interrupt.AllLines.DynamicWork), with the program lab_all_getinterrupts.c
--   (Interrupt.AllLines.Report); lab_uio.c and lab_workqueue_shared.c (Interrupt.WorkQueue),
--   with lab_workqueue_private.c, lab_workqueue_newapi.c and lab_tasklet.c (Interrupt.PrivateWork,
--   NewApiWork and WriteTasklet), whose handlers are its.
-- - Wait: lab_wait_event.c, lab_poll.c, lab_killable.c, lab_semaphore.c, lab_mutex.c and
--   lab_complete.c of chapter_22_sleeping_and_wait_queues/todo, and wait_queue/lab_excl.c beside it.
--   Wait.PollTest is the program lab_poll_test.c, the only reader of lab_poll.c; Wait.Messages
--   puts lab_write.c and lab_read.c on the handlers of the two drivers
--   (Wait.Messages.Drivers) and of any device.
-- - Timers: todo/lab_multitimer.c, resolution_timer_kernel/resolution_timer_driver.c,
--   todo/lab_kprobes_hrtimer.c, todo/lab_kprobes.c (Timers.TimerProbes),
--   todo/lab_periodic_timers.c (Timers.Periodic), todo/lab_periodic_timer.c (Timers.OnePeriodic) and
--   todo/lab_hrtimer.c of chapter_18_kernel_timers.
--   Timers.Old has the drivers of todo/labs_OLD, and Timers.New the one of todo/labs_NEW.
-- - Clock: chapter_17_timing_measurements/lab_tsc.c, with what it finds in the text (Clock.Search,
--   Clock.Rate).
-- - UserPages: lab_usermap_align-not-needed.c (UserPages.Unaligned), lab_usermap.c
--   (UserPages.Aligned), lab_usermap_fast.c (UserPages.Aligned.Fast), the programs
--   lab_write_aligned.c and lab_read_aligned.c (UserPages.Aligned.Programs), lab_mmap.c and its
--   program lab_mmap_test.c of chapter_13_mem_user_and_kernel_space/todo.
-- - MiscDevice: copy_to_from/misc_dev.h of chapter_13_mem_user_and_kernel_space, over the kernel's
--   simple_read_from_buffer and simple_write_to_buffer, which are a parameter; MiscDevice.Headers has
--   the lab_miscdev.h and generic_misc_dev.h headers of the other chapters, by the same functions.
-- - Loading: drivers whose code is mostly their init and exit functions: lab_firmware.c and
--   lab_firmware_chardev.c of chapter_21_firmware, lab_uio_api.c (with its program
--   lab_uio_api_test.c, Loading.UioTest) and lab_workqueue_private.c of
--   chapter_23_deferrable_functions, chapter_26_dma/basic_dma.c, chapter_32_usb_drivers/lab_usb.c and
--   chapter_14_platform_drivers/lab_platform.c.
-- - Pci: chapter_25_pci/pci_device_finder_driver.c, over the kernel's list of devices, which is a
--   parameter.
-- - MemoryLimits: chapter_10_memory/lab_maxmem.c, lab_maxvmalloc.c and lab_app_wastemem.c
--   (MemoryLimits.Wasted).
-- - Sysfs: kset_example.c and kobject_example.c of chapter_20_unified_device_model_and_sysfs.
-- - Network: lab_transmit.c, lab_transmit_simple.c and lab_receive.c of
--   chapter_29_network_drivers_transmission_and_reception,
--   chapter_27_network_drivers_basics/basic_network_driver.c (Network.Stub) and
--   chapter_28_network_drivers_data_structures/network_devices.c (Network.Devices).
-- - Modules: the modules of chapter_9_modules that use one another, dynamic_module_loading and
--   duplicate_modules (Modules.Pair).
--
-- Drivers and programs meet in Device: the interface that a driver fills, runs of calls on it and on
-- an abstract file (Device.Files), the drivers of CharDevice and PutGet as instances (Device.Drivers;
-- MiscDevice has its own; Device.Refinement puts the three together), and the programs
-- put_and_get_app.c of chapter 13 and lab_char_test.c of chapter 11 as clients of any of them
-- (Device.Programs), and lab_write.c and lab_read.c of chapter 22 (Device.Messages).
-- lab_mmap_test.c is a client of the same interface and of UserPages.Mmap.
--
-- The wait queue of the kernel is a parameter of Wait.Event, Wait.Poll and Wait.Exclusive as well,
-- with what is documented of wake_up_interruptible; in Interrupt.Uio it is any function on the
-- readers. The completions of Wait.Completion, the semaphores of Wait.Semaphore and hrtimer_forward
-- of Timers.HrTimer are parameters as well, with what is documented of them.
--
-- How the state corresponds: a static variable is a field; a RAM disk is a function from offsets to
-- bytes beside its size; a user's buffer is one from offsets to bytes; an `int` or `atomic_t` is a
-- number below 2 ^ 32 and negative from 2 ^ 31 on; what the code does outside of an object is
-- a value of its own (an overrun, a breach, `none`). A handler that is interrupted has a program
-- counter, and a step is one access to the shared variables.
--
-- Bounds. Disks are smaller than 2 ^ 31 bytes. The handler of an interrupt runs to its end wherever
-- it interrupts the bottom half, as on one processor; a theorem that needs fewer than 2 ^ 31 events
-- says so; in Interrupt.AllLines, its Freeing and its Report the interrupts have no bound. In Wait
-- there are any number of readers (in Wait.Exclusive fewer than 2 ^ 32) and one writer, and signals
-- may end the waits of Wait.Event, Wait.Exclusive and Wait.Messages. In Loading.Usb one probe is
-- under way at a time, and fewer than 2 ^ 31 interfaces are ever plugged in; Pci has at most 2 ^ 31
-- devices; a packet of Network.Lines has at most 2 ^ 31 - 16 bytes. In Timers.Multi and
-- Interrupt.WorkQueue one write is under way at a time. A page has 4096 bytes, and the
-- order of the kernel's largest block is 18 at most. The loop over the lines of a packet runs on
-- fuel, the length of the packet, of which each round takes sixteen or all that is left; that of Pci on fuel for a round more than there are devices; that of
-- lab_maxvmalloc.c on fuel for ten rounds, which double 4 MB beyond any `int`; that of
-- lab_app_wastemem.c on fuel for a round more than it makes. The loop of lab_uio_api_test.c may go on
-- for ever, and has an outcome for fuel that runs out. On all interrupt lines together
-- Interrupt.AllLines.WorkQueue has fewer than 2 ^ 31 interrupts. The loops over bytes,
-- pages and interrupt lines recurse on the rounds that are left.
--
-- Not modelled: logging, delays, module parameters that only size a buffer, lseek (it is the
-- kernel's, or sets the position only), numbers with a point; basic_module.c of chapter_9_modules and
-- EXAMPLES/mytasklet.c of chapter_23_deferrable_functions, which only log; EXAMPLES/hrexamp.c of
-- chapter_18_kernel_timers/todo, which does not compile; and files that only include a header that is
-- modelled.
pub mod Base
pub mod Kernel
pub mod CharDevice
pub mod CharDrivers
pub mod Pci
pub mod Clock
pub mod Modules
pub mod PutGet
pub mod Ioctl
pub mod Interrupt
pub mod Network
pub mod Wait
pub mod Sysfs
pub mod Timers
pub mod UserPages
pub mod Device
pub mod MiscDevice
pub mod Loading
pub mod MemoryLimits
