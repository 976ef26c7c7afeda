-- ===== src/Lib.antt =====
-- ai-camera: the protocol cores of a network camera's server.
--
-- The program streams video and serves clients over several protocols. This library models the parts
-- that carry their logic, each as functions on explicit state:
--
-- Ws is the WebSocket server behind the handshake. Ws/Types and Ws/Frame are
-- include/server/ws/ws_types.hpp and ws_frame.hpp: header parsing, masking, the server's frames.
-- Ws/Session is src/server/ws/ws_session.cpp: the session is a record of what the class keeps, each
-- handler a function on it, and what it tells the rest of the program is a log of events. Reads,
-- writes, timers and the posts to the strand are inputs of one step function, so that an
-- interleaving is a list of inputs.
--
-- Rtp is the way of a video frame to the network. Rtp/H264 is H264Source::HandleFrame of
-- src/rtp/h264source.cpp, which splits a NAL unit into packets for a callback; Rtp/Packet is
-- include/ai-camera/rtp/rtp.h; Rtp/Transport is src/rtp/rtptransport.cpp, which writes the RTP
-- headers and runs a send loop for each channel; Rtp/Sender is the bytes that the senders of
-- src/rtp/rtpsender.cpp put on their sockets, and Rtp/Interleaved the loop of
-- src/rtsp/rtspsession.cpp that takes interleaved frames apart. Rtp/RawSource is
-- src/rtp/rawh264source.cpp, which finds NAL units in a file and makes frames of them. Rtp/MediaSession is
-- src/rtp/mediasession.cpp, which hands a packet to the transports of its clients.
--
-- Rtsp is the control of a stream. Rtsp/Protocol is src/rtsp/rtsp.cpp, the text of requests, responses
-- and SDP. Rtsp/Session is the class RtspSession of src/rtsp/rtspsession.cpp: its record holds the
-- context, the transport of Rtp/Transport, the source of Rtp/RawSource and the queue of packets;
-- Session/Setup is HandleSetup, Session/Requests the other handlers and OnBytes, which runs the loop of
-- Rtp/Interleaved, and Session/Playback the supply of packets to the transport's loop. Session/Events
-- puts them together: bytes arrive, a wait ends, a file is loaded.
--
-- Http is the HTTP server of src/server/http: Http/Request and Http/Parser are http_parser.cpp, Http/Response
-- http_response.cpp, Http/Router router.cpp and Http/Session session.cpp. An exception that leaves a
-- handler is a value of its own.
--
-- Media is src/media: Media/Buffer the reference counts of media_buffer.c on a heap of addresses,
-- Media/Packet the packets of media_packet.c that share buffers.
--
-- Serial is src/serial/serial_protocol.cpp, which splits the bytes of a serial line into frames.
--
-- Mdns is src/mdns/dns_message.cpp, the DNS message codec.
--
-- Sip is the signalling of GB28181. Sip/Message is the class SipMessage of src/gb28181/sip_message.cpp, its
-- text written and read; Sip/Auth the challenges and digests of the same file. Sip/Agent is
-- src/gb28181/sip_agent.cpp: its record is the agent with its transport, and what it sends and tells the
-- callbacks is a list of effects; what a callback of a request calls back on the agent is a parameter.
-- Agent/Requests builds and sends requests, Agent/Handlers is what it does with a message, and Agent/Events
-- the calls of its owner and the events of its thread, also those that run while Stop waits.
--
-- Mqtt is the MQTT client of src/mqtt/mqtt_client.cpp: Mqtt/Packet writes and reads packets, and Mqtt/Client is
-- the class, with what is posted to its strand, the read that is under way and the handlers of packets.
--
-- Bytes are numbers; sums, shifts and counters that can wrap are written with their `% 2 ^ w`. Loops run
-- on fuel: those of the WebSocket session, of the interleaved data, of the HTTP headers and of the stream of NAL
-- units consume at least a byte each round, so that the length of the buffer bounds their rounds; those of
-- the serial protocols do when the delimiter and the length field are not empty, and the loop over the
-- parameters of a SIP challenge always; an MQTT length of 32 bits takes five rounds at most. DecodeName follows
-- compression pointers without a bound; its fuel counts its rounds and its calls of itself, and running
-- out stands for a call that has not returned. Sockets, timers, clocks
-- and handlers are inputs or arguments: the results of asio's operations, what GetTimestamp and
-- GetLocalPort return, a sender's answer. Locks are not modelled, each handler being one step. A packet
-- is a value, and what a sender writes into the buffer that a packet shares is seen in the packet that
-- it is handed.
--
-- Not modelled: the WebSocket handshake, ONVIF and the managers above MQTT and SIP, which are mostly text and
-- calls of libraries, and everything that touches devices, files or sockets directly.
pub mod Base
pub mod Ws
pub mod Rtp
pub mod Mdns
pub mod Serial
pub mod Sip
pub mod Mqtt
pub mod Http
pub mod Rtsp
pub mod Media
