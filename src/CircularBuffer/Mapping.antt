-- ===== src/CircularBuffer/Mapping.antt =====
-- `circular_buffer` of src/circular_buffer.rs: what the calls of the operating system set up.
