-- ===== src/Io/Tests.antt =====
-- The buffers of src/io on concrete rings, readers and writers.
mod Rings
mod Buffers
