-- ===== src/Http.antt =====
-- worker/transform.c, the parts that handle one message: header lists, the test whether bytes may
-- begin a message, the serialiser, and the verdict on a parse.
pub mod Headers
pub mod Looks
pub mod Serialize
pub mod Parse
mod Tests
