-- ===== src/Convert.antt =====
-- libswconverter/swconvertor.c: pixel format conversion in software.
-- A plane is a function from places to bytes. Places are not wrapped: the model is of images whose
-- planes have fewer than 2^32 bytes, where the code's unsigned offsets do not wrap either.
mod Tests
pub mod Plane
pub mod Tile
pub mod Linear
pub mod Tiled420
pub mod Pixel
pub mod Image
