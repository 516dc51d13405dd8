-- ===== src/Js.antt =====
-- What the client uses of its language and of the browser: numbers in decimal and hexadecimal,
-- promises that reject, `fetch` responses and local storage.
pub mod Effects
pub mod Keeps
pub mod Storage
pub mod Number
pub mod Text
