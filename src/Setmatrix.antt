-- ===== src/Setmatrix.antt =====
-- internal/setmatrix/setmatrix.go: a map of sets. `Sets` has what is used of golang-set, `Matrix` the
-- operations, and below them what they promise; `ListSets` shows that the interface can be met.
pub mod Sets
pub mod Matrix
pub mod ListSets
mod Tests
