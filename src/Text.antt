-- ===== src/Text.antt =====
-- The functions of ngix_module/AIS/allais.c on texts. A text is the list of its bytes up to the
-- terminating zero; a function that writes to a buffer returns what it writes.
pub mod Base64
pub mod Swap
pub mod Split
pub mod Compare
pub mod Url
pub mod Query
pub mod Tests
