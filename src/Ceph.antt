-- ===== src/Ceph.antt =====
-- The messages between the Ceph object class and the Faasm runtime (include/cephclass/cephcomm.h),
-- and the object class itself (src/cephclass/cephclass.cpp).
pub mod Socket
pub mod Sending
pub mod Framing
pub mod Session
pub mod Serving
