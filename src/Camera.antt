-- ===== src/Camera.antt =====
-- The camera relay of creality-discovery/camera.go: the frames that it makes of the video packets, and
-- its hub of viewers. WebRTC by pion, the decoder of go2rtc and the web socket are not modelled.
pub mod Idr
pub mod Frame
pub mod Hub
pub mod Codec
pub mod Sdp
