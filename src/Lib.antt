-- ===== src/Lib.antt =====
-- Remote VIRTIO GPU: rvgpu-proxy serves a virtual GPU to its guest kernel, and forwards the
-- commands and the resources over a stream to rvgpu-renderer on another machine, which draws them.
--
-- The parts, and how they meet. The guest puts commands (Virtio) into a queue; the proxy takes them
-- from it (Vqueue), checks them (Sanity), keeps the resources and the guest memory attached to them
-- (Device, Resource), forwards each command behind a header, and sends the part of a resource that a
-- transfer names as patches (Patch); the layout of both is in Wire. The renderer reads the command
-- and checks it again, and reads the patches into its copy of the resource (Renderer).
--
-- The files, and the code that each models:
-- - Prelude: helpers; Words holds the wrap-around of uint32_t and size_t, which is written out.
-- - Memory: bytes by their address, `struct iovec`, and the bytes that an array of them lists.
-- - Iov: src/rvgpu-proxy/gpu/rvgpu-iov.c; Reference holds what copy_to_iov does to overlapping buffers.
-- - Wire: the structures of include/librvgpu/rvgpu-protocol.h as bytes.
-- - Patch: write_patch, init_patch, add_patch and gpu_device_send_data of
--   src/librvgpu/res/rvgpu-res.c.
-- - Resource: the other parts of that file. Format holds the questions on formats, with
--   include/librvgpu/rvgpu-virgl-format.h; Transfer the sizes and rvgpu_ctx_transfer_to_host; Table
--   the list of resources.
-- - Virtio: the commands, as include/rvgpu-generic/rvgpu-sanity.h lists them.
-- - Sanity: src/rvgpu-sanity/rvgpu-sanity.c.
-- - Sessions: src/librvgpu/tcp/rvgpu-tcp.c, the closing and the return of the connections; Events the
--   passing of bytes between the pipes and the sockets in in_out_events, with the closing and renewal
--   of connections between two calls of it.
-- - Vqueue: src/rvgpu-proxy/gpu/rvgpu-vqueue.c, and the draining of a queue.
-- - Device: src/rvgpu-proxy/gpu/rvgpu-gpu-device.c. Backing holds the resources and their memory,
--   with the account of it; Fences the answers that wait, and the fences that the renderers report;
--   Capset the file of capsets; Submit the transfers inside a SUBMIT_3D buffer; Service the switch
--   over the commands; Requests the loops of gpu_device_serve_ctrl and gpu_device_serve_cursor;
--   FromHost what the renderer sends back, and resource_transfer with it; Drain
--   gpu_device_drain_once and the passes of gpu_device_flush_pending.
-- - Renderer: src/rvgpu-renderer/virgl/rvgpu-virgl.c. Input is rvgpu_pr_read with its buffer,
--   Frame the reading of a command in rvgpu_pr_dispatch, Load is load_resource_patched, Upload is
--   upload_resource, Virgl the renderer's state and the calls of virglrenderer as an interface,
--   Dispatch the loop of rvgpu_pr_dispatch with the work of each command. Touch is the rvgpu_in_
--   functions of src/rvgpu-renderer/renderer/rvgpu-input.c, Egl the sync objects and the lists of
--   scanouts of src/rvgpu-renderer/renderer/rvgpu-egl.c.
-- - InputDevice: src/rvgpu-proxy/gpu/rvgpu-input-device.c, with the assignment of touch slots to the
--   renderers in Slots.
-- - Utils: src/rvgpu-utils/rvgpu-utils.c, the reading and writing of a descriptor.
-- - Pipes: src/librvgpu/rvgpu.c.
--
-- State is passed explicitly: an operation takes the record of the state and returns the new one
-- with its answer, and what is sent is the list of the bytes. A failed assert or allocation is
-- `none`. load_resource_patched runs on fuel, the length of its input and one more, which is enough
-- since each round reads at least one byte. vqueue_get_request runs on fuel for its rounds: 2047 are
-- enough where each buffer can be mapped, since each of the two arrays has 1024 places. The loop over
-- a SUBMIT_3D buffer runs on fuel for each word and one more, since each pass steps over a word.
-- rvgpu_pr_dispatch runs on fuel for each byte of its input and one more, since each command that it
-- takes is at least a header. The answers of the kernel to read, write and send are lists, and a
-- call for which the list has no answer left is one that waits.
--
-- Not modelled: system calls (mmap is the parameter map_guest, an attempt to connect a parameter of
-- Sessions), threads but for the two that share the pipe of the fences (a step relation of
-- Device/Fences/Threads), the start of the programs, the compositor with its JSON messages, the 2D
-- layouts, and the calls of OpenGL, EGL and Wayland. virglrenderer is an argument, the record Virgl;
-- the arithmetic on double of a touch is a parameter too. What poll and splice report is kept in the
-- connections of Sessions/Events, and so is whether a splice met an empty pipe. The service is that of
-- the build without VSYNC_ENABLE; the state of a reset, which another thread sets, is an argument that
-- each round reads anew. The sizes of the structures of linux/virtio_gpu.h and the values of its
-- formats are the fields of Layout, an argument of the checks. Not modelled either: a shift by a level
-- of 32 or more in get_meta_res_from_cmd, which C leaves undefined and the model takes as a division,
-- and the 2 ^ 61 places from which the product of a realloc wraps.
pub mod Prelude
pub mod Memory
pub mod Iov
pub mod Wire
pub mod Patch
pub mod Sessions
pub mod Vqueue
pub mod Virtio
pub mod Sanity
pub mod Device
pub mod Resource
pub mod Renderer
pub mod InputDevice
pub mod Utils
pub mod Pipes
