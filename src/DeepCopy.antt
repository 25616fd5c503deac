-- ===== src/DeepCopy.antt =====
-- api/v1alpha1/zz_generated.deepcopy.go: the deep copies of the resources. The API machinery hands out
-- objects of a shared cache, so what a copy shares with its original matters.
pub mod Memory
pub mod Reads
pub mod Laws
pub mod Structs
pub mod Copies
pub mod Parts
pub mod Compose
pub mod Values
pub mod Objects
pub mod Isolation
