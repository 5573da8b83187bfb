-- ===== src/Scull.antt =====
-- The scull devices (scull/): the memory device, the pipe, and the devices with access control.
pub mod Dev
pub mod Pipe
pub mod Access
