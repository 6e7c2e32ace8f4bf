-- ===== src/Ipam.antt =====
-- ipam/: the address pools of an address space and the addresses taken from them. `Keys` has the maps
-- keyed by a SubnetKey, `Pools` the pools of an address space, `Addresses` the ordinals of
-- a network, `Allocator` the requests and releases of addresses. `Net` has what is used of package net.
pub mod Net
pub mod Keys
pub mod Pools
pub mod Addresses
pub mod Allocator
mod Tests
