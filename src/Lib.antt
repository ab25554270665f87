-- ===== src/Lib.antt =====
-- Verification of evmongoose: the embedded network library that runs mongoose on libev.
--
-- The program's parts. `src/mongoose.c` is the whole of the library `libevmongoose`: buffers and
-- strings (common/mbuf.c, mg_str.c, str_util.c), base64 (common/base64.c), the connections of a
-- manager (net.c), the socket interface that libev drives (net_if_socket.c), and above them the
-- protocols: HTTP, WebSocket, MQTT, DNS, CoAP. A connection owns two buffers, the input and the output.
-- libev calls `ev_read_cb`, `ev_write_cb` and `mg_connection_timer_cb`; these move bytes between
-- the socket and the buffers, call the event handler of the connection (the user's or the
-- protocol's) with each event, and close the connection where its flags ask for that. A handler
-- answers by `mg_send`, which appends to the output and starts the write watcher.
--
-- The files.
--   Common     names of the library passed on, Boolean tests, lists over the native numbers,
--              signed integers, bytes.
--   Mbuf       `struct mbuf` of src/mongoose.h and the `mbuf_` functions of src/mongoose.c: a block
--              of memory from an allocator, a length and a size. Mbuf/Contents has the view of a
--              buffer as the list of the bytes it holds, to which Mbuf/Insert, Mbuf/Remove and
--              Mbuf/Resize refine the operations.
--   Str        `mg_strcmp`, `mg_strncmp`, `mg_vcmp`, `mg_vcasecmp`, `cs_to_hex`, `cs_from_hex`,
--              `c_strnlen` and `c_strnstr`; Str/Pattern has `mg_match_prefix`.
--   Base64     `cs_base64_init`, `cs_base64_update`, `cs_base64_finish`, `cs_base64_encode` and
--              `cs_base64_decode`.
--   Net        `struct mg_connection` and its events: `mg_call`, `mg_send`, the `mg_if_` callbacks.
--   Net/Step   one wake-up by libev: `mg_mgr_handle_conn` with the reads and writes below it,
--              `mg_add_conn`, `mg_accept_conn`, `mg_close_conn` and the three libev callbacks.
--   Uri        `parse_uri_component` and `mg_normalize_uri_path`; Uri/Parse has `mg_parse_uri`.
--   Mqtt       `struct mg_mqtt_message`. Mqtt/Send has the packets that the client functions queue,
--              from `mg_mqtt_prepend_header` to `mg_mqtt_disconnect`; Mqtt/Parse has `parse_mqtt`
--              and the walk over the topics of a subscription. Mqtt/Connect has
--              `mg_send_mqtt_handshake_opt`, Mqtt/Handler `mqtt_handler`, and Mqtt/Broker the broker:
--              its sessions, `mg_mqtt_match_topic_expression` and `mg_mqtt_broker`.
--   Net/Links  the pointers of the list of connections in `mg_add_conn` and `mg_remove_conn`.
--   Http       Http/Chunk has `mg_http_parse_chunk` and `mg_handle_chunked`, Http/Send
--              `mg_send_http_chunk`, Http/Request `mg_http_get_request_len` and `mg_url_decode`,
--              Http/Message `mg_parse_http` with the functions below it and `mg_get_http_header`, and Http/Form
--              `mg_get_http_var`.
--   WebSocket  WebSocket/Send has the frames from `mg_send_ws_header` to
--              `mg_send_websocket_framev`, WebSocket/Deliver `mg_deliver_websocket_data` with the
--              loop of its caller, and the idle ping of `mg_websocket_handler`.
--   Coap       `struct mg_coap_message` and its options. Coap/Parse has `mg_coap_parse` and the
--              `coap_get_` functions, Coap/Compose the way from `coap_calculate_packet_size` to
--              `mg_coap_send_message`, Coap/Handler `coap_handler`.
--   Acl        `mg_check_ip_acl` with `parse_net`, and `mg_next_comma_list_entry`.
--   Dns        `struct mg_dns_message`. Dns/Name has the encoding of names and
--              `mg_dns_uncompress_name`, Dns/Message `mg_parse_dns`, Dns/Query the way from
--              `mg_dns_insert_header` to `mg_send_dns_query`, Dns/Handler `dns_handler`, and
--              Dns/Server the replies of a server.
-- The other files below these hold lemmas and theorems, and the files Tests hold runs on concrete
-- inputs.
--
-- How state is modelled. Each structure is a record, and an operation takes one and returns the
-- next. Memory blocks are lists of bytes with an address. `realloc` is a parameter with its
-- documented behaviour (the record Allocator of Mbuf), and so are time, sockets, TLS (the record
-- World of Net/Step) and the event handlers (the record Handlers of Net; Net/Handler says what is
-- relied on of them, which is that they touch the socket, the watchers and the output by `mg_send`
-- only). In Net the two buffers of a connection are the lists of the bytes that they hold, so a
-- send or a receive that runs out of memory is not seen there. Of a libev watcher only the last call
-- that was made on it is kept. Two double values, the timer of a connection and the present time, are
-- natural numbers. What a UDP socket or a listening socket does to other connections while one of
-- them is handled is an argument. The sessions of the MQTT broker and their connections are known
-- by numbers, and whether there is memory for a session is an argument. What `sscanf` reads of an
-- access list is a parameter, and whether `realloc` moves the input of a connection when the first
-- fragment of a WebSocket message makes it grow (the record Host of WebSocket/Deliver). The length that
-- `mg_send` takes is an `int`, so that of 2 ^ 31 bytes or more not all are queued. Str/Pattern gives no
-- result for strings whose places do not fit in an `int`.
--
-- A pointer into received bytes is the list of the bytes behind it, and a parser whose pointer would
-- leave these bytes has no result, since what stands there is not known.
--
-- Bounds. `size_t` has 64 bits and `int` 32. The size by which a buffer is enlarged is computed in the
-- source as a double; it is a product of natural numbers here, which is the same below 2 ^ 52. The
-- loops are over lists, but for some that have a number of rounds: the path normalisation needs one
-- for each byte at most; the parts of a URI need one for each of the six states and each byte; the
-- padding of base64 needs three at most; the variable length of MQTT needs ten for any `size_t`, and
-- five are enough below 2 ^ 31; the walk over the topics of a subscription needs one more than there
-- are topics; the options of CoAP, the chunks and the headers of HTTP and the frames of WebSocket take
-- at least one byte each, so one round more than there are bytes is enough, and so it is for
-- `mqtt_handler` and for writing a name of DNS; reading one may need any number, since its pointers
-- may lead back, so the number is an argument there.
-- The arithmetic of `size_t` in the chunk and frame parsers wraps as in the source.
--
-- Not modelled. The event handler of HTTP, its multipart bodies, files and directories, CGI and digest
-- authentication, which mostly format text and use the file system; the handshake of WebSocket, which
-- prints a digest; the resolver of DNS, SNTP, SOCKS and the tunnel, which open further connections;
-- formatted printing, digests, directories and time; the opening of sockets and the TLS libraries'
-- glue; UDP connections that are made by a listener; the manager's start and end and its broadcasts;
-- the ports to other platforms, which a build on libev leaves out; the Lua bindings of src/lua, which
-- are operations on the stack of the Lua interpreter.
pub mod Common
pub mod Mbuf
pub mod Str
pub mod Acl
pub mod Base64
pub mod Net
pub mod Mqtt
pub mod Uri
pub mod WebSocket
pub mod Coap
pub mod Dns
pub mod Http
