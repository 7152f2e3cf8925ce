-- ===== src/Loading.antt =====
-- How further drivers are loaded and unloaded, over the devices that they include: each child has the
-- init and exit functions of the drivers of one kind. A write through a pointer that the kernel
-- returned is an operation on what it points to, so it is a fault where the pointer is NULL.
pub mod Firmware
pub mod Uio
pub mod UioTest
pub mod Platform
pub mod Dma
pub mod WorkQueue
pub mod Usb
mod Tests
