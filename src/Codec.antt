-- ===== src/Codec.antt =====
-- webclient/habirender/codec.js: the decoder of the image files.
pub mod Bytes
pub mod Bitmap
pub mod Props
pub mod Cel
pub mod Limb
pub mod Body
pub mod Laws
pub mod Sizes
pub mod Limbs
pub mod Bodies
pub mod Examples
