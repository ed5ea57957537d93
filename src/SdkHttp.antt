-- ===== src/SdkHttp.antt =====
-- The transport of the Python SDK: sdks/python/src/reinforce_spec_sdk/_http.py and the errors of
-- sdks/python/src/reinforce_spec_sdk/exceptions.py.
mod Defs
pub mod Retries
mod Examples
unfoldable pub use Defs.*
