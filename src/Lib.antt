-- ===== src/Lib.antt =====
-- dorsvr: an RTSP server that streams elementary stream files over RTP, and the client side of it.
--
-- The library models the data path, from the file's bytes to packets and back, and the RTSP server that
-- starts it. A source (livemedia/framed_source.go) delivers one frame per request.
-- The H.264 fragmenter (livemedia/h264_video_rtp_sink.go) is such a source: it stands between the framer
-- and the sink, and cuts NAL units to the size of a packet. The sink builds its packets in an output
-- buffer (livemedia/media_sink.go). The framer itself gets the bytes of a file through a parser with two
-- banks (livemedia/stream_parser.go), which leaves one NAL unit at a time in the buffer it is given.
--
-- Common         the names that all modules share: Go's slices as lists, `uint` arithmetic that wraps
--                at 2^64, bit masks, lemmas on lists. `none` is a run-time panic throughout.
-- Binary         livemedia/binary.go: numbers in byte slices. `encoding/binary` is written out.
-- BitVector      livemedia/bit_vector.go: the reader of bits and Exp-Golomb codes.
-- FramedSource   livemedia/framed_source.go: the request protocol of a source. Callbacks are numbers.
-- Fragmenter     livemedia/h264_video_rtp_sink.go, `H264FUAFragmenter`: `pull` is a request of the
--                client, `after_getting_frame` the callback of the input source. The input source is
--                the client's parameter: it leaves a NAL unit in the buffer it was given.
-- OutPacketBuffer livemedia/media_sink.go, `OutPacketBuffer`: the sink's packet buffer.
-- RtpSink        livemedia/rtp_sink.go and livemedia/multi_framed_rtp_sink_linux_amd64.go: the header of a
--                packet (`buildAndSendPacket` up to `packFrame`), timestamps, the end of a packet.
-- SeqNum         livemedia/utils.go, `seqNumLT`: the order of sequence numbers.
-- ReceptionStats livemedia/rtp_reception_stats_linux_amd64.go: the counts of a receiver, down to the
--                inter-packet delay of `noteIncomingPacket`.
-- RtpPacket      livemedia/multi_framed_rtp_source_linux_amd64.go, `BufferedPacket` and the checks in
--                `networkReadHandler` (`parse_packet`), with groupsock/inet.go, `Ntohl`.
-- Reordering     the same file, `ReorderingPacketBuffer`: packets in a store, linked by their places in
--                it; the clock is an argument.
-- TransmissionStats livemedia/rtp_transmission_stats.go: what a sender keeps of each receiver's reports.
-- H264Source     livemedia/h264_video_rtp_source.go, `processSpecialHeader`: the source of H.264 packets.
-- Rtcp           livemedia/rtcp_linux_amd64.go, `processIncomingReport`: the parser of compound packets.
-- StreamParser   livemedia/stream_parser.go: two banks of bytes that are filled from a source.
-- H264Framer     livemedia/mpeg_video_stream_parser.go and livemedia/h264_video_stream_framer_linux_amd64.go: the
--                split of a byte stream into NAL units (`Rounds`, `Split`, `Moved`, `Stream`), emulation bytes
--                (`Emulation`, `Escape`), slice headers, SPS, VUI and SEI (`Headers`, `Sei`), and the end of an
--                access unit (`AccessUnit`, `SamePicture`).
-- RtpInterface   livemedia/rtp_interface.go: the TCP streams of an interface, the descriptors of their
--                connections, the frames that are sent and the reader.
-- OnDemand       livemedia/on_demand_server_media_subsession.go and livemedia/stream_state.go: the streams that
--                sessions share, set up, start, pause and delete; `Sessions` is about a first session.
-- Auth           auth/db.go and auth/digest.go: the table of users, the digest and the header that answers it; the
--                hash is a parameter.
-- RtspServer     rtspserver/server.go, connection.go, session.go, stream_state.go: `Media` is the table of media
--                sessions, `Session` and `Connection` are the handlers, `Events` the server over time, with the tasks that start
--                streams. What
--                a request finds outside (files, random IDs, ports) is its `World`; a request comes parsed.
--
-- A Go `uint` is a native number with its wrap-around written out. Loops run on fuel: `golomb_loop` gets
-- one more than the bits left, `pull_all` two more than the bytes of the unit, and the theorems show
-- that this is enough. The loop over RTCP subpackets gets a round for each byte of the packet.
-- The loop that saves a NAL unit (`nal_loop`) gets one round more than the unit has bytes.
--
-- Not modelled: sockets and file I/O (groupsock, livemedia/byte_stream_file_source_*.go), logging, the
-- command-line programs, floating-point estimates (livemedia/m2ts_video_stream_framer.go,
-- livemedia/rtcp_from_spec.go), the client (rtspclient), the parsing of text (livemedia/common.go,
-- livemedia/media_session.go), and the 386 copies of the amd64 files.
pub mod Common
pub mod Binary
pub mod BitVector
pub mod FramedSource
pub mod StreamParser
pub mod RtpInterface
pub mod OnDemand
pub mod H264Framer
pub mod Fragmenter
pub mod OutPacketBuffer
pub mod SeqNum
pub mod RtpSink
pub mod TransmissionStats
pub mod H264Source
pub mod Rtcp
pub mod Auth
pub mod RtspServer
pub mod ReceptionStats
pub mod RtpPacket
pub mod Reordering
