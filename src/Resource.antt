-- ===== src/Resource.antt =====
-- librvgpu: resources, their formats and their transfer to the renderer.
pub mod Format
pub mod Transfer
pub mod Table
