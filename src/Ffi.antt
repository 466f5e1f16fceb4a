-- ===== src/Ffi.antt =====
-- src/ffi: the constants and the C structures that are passed to the kernel.
mod Consts
mod Rule
mod Ioctl
pub use Consts.*
pub use Rule.*
pub use Ioctl.*
