-- ===== src/Auth.antt =====
-- wire_rpc/auth: the session store and the handshake by challenge.
pub mod Text
pub mod Password
pub mod ApiKey
pub mod Token
pub mod Sessions
pub mod Base
pub mod Hmac
