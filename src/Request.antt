-- ===== src/Request.antt =====
-- vanity/request: the requests of clients, as they are parsed and dispatched.
pub mod Extractable
pub mod Objects
pub mod Bounds
pub mod Operation
pub mod Names
pub mod Permission
pub mod Call
pub mod Exact
pub mod Dispatch
pub mod Agree
pub mod DispatchBounds
pub mod Ends
pub mod Serving
pub mod Answers
pub mod Recursion
