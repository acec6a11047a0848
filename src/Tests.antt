-- ===== src/Tests.antt =====
-- The theorems on concrete heaps, kernels and buffers.
mod Heaps
mod Kernels
mod Buffers
mod Traps
mod Lists
mod Boots
mod Bounded
mod Elements
mod Cores
mod Reports
