-- ===== src/RtpInterface/Framing.antt =====
-- livemedia/rtp_interface.go: what the reader of a connection does with the bytes that it brings.
use dorsvr.RtpInterface.{RtpInterface}
