-- ===== src/Lib.antt =====
-- libxcb, the C library through which a client talks to an X server.
--
-- The parts of the library and how they work together. A connection (src/xcbint.h,
-- xcb_connection_t) is one record that all parts share under one lock. A request goes out through
-- src/xcb_out.c: xcb_send_request sets its length, gives it a 64-bit sequence number, tells the input
-- side what to expect (_xcb_in_expect_reply) and buffers its bytes. src/xcb_conn.c writes the bytes
-- and waits for the socket. What comes back is read by src/xcb_in.c: read_packet takes packets off
-- the socket, widens their 16-bit numbers, and queues each as an event or as a reply to a request;
-- the polling functions hand them out, and discard_reply marks requests whose replies are to be
-- dropped. Replies that have not been asked for wait in a map of src/xcb_list.c. src/xcb_ext.c keeps
-- what the server says about each extension, and src/xcb_xid.c hands out resource ids. A connection
-- begins in src/xcb_util.c, which reads the name of a display and opens a socket for it; src/xcb_auth.c
-- finds the authorisation data, and src/xcb_conn.c (xcb_connect_to_fd) greets the server with it and
-- reads the setup.
--
-- The files of this library and the code they model.
--   Base            shared names, Boolean tests, lists over the native numbers, bitwise operations
--   Sequence        src/xcbint.h: XCB_SEQUENCE_COMPARE and XCB_SEQUENCE_COMPARE_32;
--                   src/xcb_in.c: the widening of 16-bit and 32-bit numbers
--   Chain           the linked lists with a tail pointer of src/xcb_list.c and src/xcb_in.c
--   Map             src/xcb_list.c
--   Conn            src/xcbint.h: the state; src/xcb_conn.c: _xcb_conn_shutdown
--   Conn.Socket     src/xcb_in.c: read_block, on the results of recv
--   In.Number       src/xcb_in.c: read_packet, what the number of a packet says
--   In.Block        src/xcb_in.c: _xcb_in_read_block
--   In.Read         src/xcb_in.c: the rest of read_packet, and _xcb_in_read
--   In.Expect       src/xcb_in.c: _xcb_in_init, _xcb_in_destroy, _xcb_in_expect_reply,
--                   _xcb_in_replies_done, _xcb_in_wake_up_next_reader
--   In.Poll         src/xcb_in.c: get_event, poll_for_reply, xcb_poll_for_reply, xcb_poll_for_event
--   In.Discard      src/xcb_in.c: insert_pending_discard, discard_reply, xcb_discard_reply
--   Out.Number      src/xcb_out.c: xcb_send_request, the numbering of a request
--   Out.Length      src/xcb_out.c: xcb_prefetch_maximum_request_length,
--                   xcb_get_maximum_request_length; xcb_send_request, its length and its prefix
--   Out.Send        src/xcb_out.c: _xcb_out_send, _xcb_out_flush_to, xcb_writev, xcb_flush
--   Out.Request     src/xcb_out.c: xcb_send_request as a whole, xcb_take_socket, get_socket_back
--   In.Wait         src/xcb_in.c: xcb_wait_for_reply, xcb_wait_for_event, xcb_request_check
--   Wait            src/xcb_conn.c: _xcb_conn_wait
--   Connect         src/xcb_conn.c: xcb_connect_to_fd, xcb_disconnect, the accessors;
--                   src/xcb_out.c: _xcb_out_init
--   Connect.Calls   the calls of the system on file descriptors
--   Connect.Greeting  src/xcb_conn.c: write_setup, read_setup
--   Connect.Display src/xcb_util.c: xcb_connect, xcb_connect_to_display_with_auth_info
--   Auth            src/xcb_auth.c
--   Auth.Names      src/xcb_auth.c: get_peer_sock_name
--   Out.Vector      src/xcb_out.c: write_block; src/xcb_conn.c: write_vec
--   Ext             src/xcb_ext.c
--   Xid             src/xcb_xid.c
--   Life            every call of a connection together, by any number of threads: what all of them keep
--   Life.Pieces     the pieces into which waiting cuts a call
--   Life.Calls      the calls, and those that other threads make while a call waits
--   Util.Strings    strrchr and strtoul, as src/xcb_util.c uses them
--   Util.Decimal    the numbers that snprintf writes
--   Util.Open       src/xcb_util.c: _xcb_open, _xcb_open_tcp, _xcb_open_unix, _xcb_open_abstract,
--                   _xcb_socket
--   Util.Popcount   src/xcb_util.c: xcb_popcount
--   Util.Display    src/xcb_util.c: _xcb_parse_display, xcb_parse_display
--   Tests           the statements at concrete inputs
-- The modules below these that no line names, such as Laws, hold theorems about them.
--
-- How state and effects are modelled. A function that changes the connection takes it and returns it.
-- A pointer result that may be null is an Option. Whether malloc, pthread_mutex_init or
-- pthread_cond_init succeeds is an argument. The socket is the list of what its calls of recv will
-- return; after the last one the peer has closed the connection, and the bytes that writev has taken
-- are a list. A thread that waits is given a list of rounds, each with what the other threads do to the
-- connection while the lock is released, what poll says and what the socket takes. Signals given to
-- condition variables are recorded. A list with a tail pointer is a list of nodes with the number of the slot that the
-- tail points at, so that a tail pointer that is not at the last link can be told. Numbers are natural
-- numbers below the modulus of their C type, and the code's sums and differences keep their wrap.
-- Hosts are little-endian.
--
-- Fuel. `while(read_packet(c));` runs on fuel: each round that goes on takes a byte of the stream or
-- more, so one round more than there are bytes is enough. The loop that numbers requests for input
-- focus has fuel 3: its body runs at most twice.
--
-- The loops that wait go round once for each element of their list of rounds, and the result none says
-- that the list is too short; to send, one round for each byte is enough if the socket takes a byte in
-- each. A number of 64 bits has at most 20 digits, the fuel of the one that prints it.
--
-- Code outside the library is a parameter: XcMisc, BigRequests and QueryExtension stand for the
-- calls to the generated protocol code, and the constant XCB_KEYMAP_NOTIFY of the generated
-- xproto.h is an argument. SetupFormat stands for the generated structures of the setup, Outside for
-- libXau, libXdmcp and the process, Attempt, System, Lookup and Means for what calls of the system and
-- of malloc return.
--
-- Not modelled: the code for Windows, launchd and DECnet, and for select where poll is
-- not used (but for its limit on file descriptors); the reason of a refused setup that is printed; the
-- screen that the functions for a display store; what follows when a generic event overruns its buffer
-- in read_packet: a run ends there with the mark `overran` of the connection, and nothing that is said
-- of a marked state holds of the program; the generators src/c_client.py and src/c-client.xsl.
pub mod Base
pub mod Sequence
pub mod Chain
pub mod Map
pub mod Conn
pub mod In
pub mod Ext
pub mod Xid
pub mod Out
pub mod Wait
pub mod Connect
pub mod Auth
pub mod Life
pub mod Util
pub mod Tests
