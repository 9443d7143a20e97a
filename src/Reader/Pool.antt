-- ===== src/Reader/Pool.antt =====
-- compiler/reader/ConstantPool.cpp and compiler/include/reader/ConstantPool.h: the constant pool.
pub mod Entry
pub mod Parts
pub mod Shape
pub mod Set
pub mod Lookup
pub mod PartsWire
pub mod SimpleWire
pub mod NestedWire
pub mod ShapeWire
pub mod RoundTrip
pub mod Queries
