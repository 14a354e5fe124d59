-- ===== src/Audio.antt =====
-- The program under Audible/: it recodes a Sun audio stream.
pub mod Stream
pub mod Numerals
pub mod Options
pub mod Args
pub mod Rand
pub mod Frame
pub mod Header
pub mod Transform
pub mod Recode
pub mod Tests
