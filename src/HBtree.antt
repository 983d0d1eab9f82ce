-- ===== src/HBtree.antt =====
-- src/hbtree: the copy-on-write B-tree, of which the ordered list of a page's keys.
pub mod OrderedList
