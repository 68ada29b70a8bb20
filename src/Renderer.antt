-- ===== src/Renderer.antt =====
-- The parts of rvgpu-renderer.
pub mod Load
pub mod Frame
pub mod Input
pub mod Upload
pub mod Virgl
pub mod Dispatch
pub mod Touch
pub mod Egl
