-- ===== src/Blas.antt =====
-- The BLAS layer.
pub mod Tiling
pub mod Descr
pub mod Task
pub mod Kernel
pub mod Context
pub mod Insert
pub mod Gemm
pub mod Syrk
pub mod Gemmt
pub mod Symm
pub mod Mapping
