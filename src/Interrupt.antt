-- ===== src/Interrupt.antt =====
-- The bottom halves of chapter_23_deferrable_functions, one file for each driver over one shared
-- interrupt line. A step is one access to the shared counters; the interrupt handler runs to its
-- end wherever it interrupts the bottom half, as on one processor.
pub mod Tasklet
pub mod Improved
pub mod Thread
pub mod Threaded
pub mod Dynamic
pub mod DynamicWork
pub mod AllLines
pub mod OneThread
pub mod OneWorkQueue
pub mod Uio
pub mod WorkQueue
pub mod PrivateWork
pub mod NewApiWork
pub mod WriteTasklet
pub mod Module
mod Tests
