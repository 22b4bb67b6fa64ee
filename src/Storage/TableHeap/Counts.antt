-- ===== src/Storage/TableHeap/Counts.antt =====
-- x
