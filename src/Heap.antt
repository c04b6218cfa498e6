-- ===== src/Heap.antt =====
-- The heap store: storage/heapstore.
pub mod Bytes
pub mod Page
