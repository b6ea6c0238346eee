-- ===== src/Go.antt =====
-- What the program uses of Go's standard library: times, base64, hex, white space, lower case,
-- numbers, URLs and HTTP exchanges.
pub mod Time
pub mod Base64
pub mod Hex
pub mod Strings
pub mod Url
pub mod Http
pub mod Strconv
