-- ===== src/Api.antt =====
-- api.h and api.c: the parameters, the requests that they make, and the callbacks.
pub mod Params
pub mod Requests
pub mod Callbacks
pub mod Calls
