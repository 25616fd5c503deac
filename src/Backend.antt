-- ===== src/Backend.antt =====
-- internal/backendclient: the client of the control plane's operator API. `Errors` are its errors,
-- `Parse` reads an error response, `Wire` and `Json` are the bodies, `Transport` is `do`, and
-- `Calls` are the exported methods.
pub mod Errors
pub mod Json
pub mod Wire
pub mod Encode
pub mod Decode
pub mod Parse
pub mod Transport
pub mod Calls
pub mod Answers
