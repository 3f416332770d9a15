-- ===== src/Memory.antt =====
-- Physical memory: kernel/src/arch/x86_64/memory/.
pub mod Bitmap
pub mod Frames
