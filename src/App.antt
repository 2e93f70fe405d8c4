-- ===== src/App.antt =====
-- pkg/app: the AMF server and the gNB client.
pub mod Amf
pub mod Gnb
