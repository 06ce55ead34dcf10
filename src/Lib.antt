-- ===== src/Lib.antt =====
-- h9d, the daemon of the H9 building automation system, and the part of it that speaks to the bus.
--
-- A frame (src/common/h9_frame.cc) has a header that fits a 29-bit CAN identifier, and up to eight
-- bytes. The bus (src/h9d/bus.cc) queues the frames to send, gives each request a sequence number of
-- five bits, and hands it to the endpoints (src/h9d/bus_endpoint.cc); a bus frame
-- (src/h9d/busframe.cc) counts the drivers' answers and keeps a promise to its sender. A node
-- (src/h9d/raw_node.cc) turns a request into a comparator (src/h9d/h9framecomparator.cc) and a
-- promise that the first frame it selects fulfils, also one that comes before the request's
-- sequence number is known. On top of these a described node (src/h9d/node.cc) reads and writes
-- registers as its description (src/common/node_desc_loader.cc) says. The SLCAN driver
-- (src/bus_driver/slcan_driver.cc) writes and reads frames as lines of text. The node manager
-- (src/h9d/node_mgr.cc) keeps the table of the nodes from the frames that they send. The uploader
-- (src/h9fwupload/firmware_uploader.cc) gives a node's bootloader the pages that it asks for,
-- from the Intel HEX file that src/h9fwupload/h9fwupload.cc reads. Programs talk to the daemon over
-- TCP: a socket (src/common/tcp_socket.cc) carries messages behind their length, the thread of a
-- client (src/h9d/tcpclientthread.cc) passes their requests to the API (src/h9d/api.cc), which calls
-- the bus and the node manager, and sends what other threads have left for the client.
--
-- Files:
--   Prelude     lists, bits, words and faults that the other files share
--   H9def       the constants of h9def.h, which the build takes from a submodule: a parameter
--   Frame       common/h9_frame: H9Frame, can_id, data, the constructors; Frame/Serial has serialize
--               and deserialize, Frame/Names the types' names, Frame/Identifier the arithmetic of
--               the identifier
--   Comparator  h9d/h9framecomparator: operator==, operator< and the setters
--   RawNode     h9d/raw_node: RawNode/Promise has FramePromise and on_frame_recv, RawNode/Request the
--               requests, RawNode/NodeInfo parse_node_info_frame; Delivery, Replies and Reset are about
--               them
--   BusFrame    h9d/busframe; BusFrame/Acks is about a frame's acknowledgements
--   Subject     h9d/framesubject and frameobserver: who is called for a frame; Subject/Notified and
--               Subject/Groups are about them
--   Bus         h9d/bus and bus_endpoint; Bus/Thread has recv_thread as steps, Bus/Seqnum,
--               Bus/Pending, Bus/Forward, Bus/Queues, Bus/Steps and Bus/Types are about the operations,
--               Bus/Thread/Turn, Throws, Heap, Safety and Promises about the thread
--   Node        h9d/node: Node/Registers has init and load_description, Node/Access the accesses,
--               Node/Asks the requests that they hand to the bus, Node/Broadcast
--               get_reg_value_from_frame, Node/Exceptions dev_node_exception.h;
--               Bound, Description, Values, Text and Refusals are about them
--   NodeMgr     h9d/node_mgr and the queue of dev_workers; NodeMgr/Queries has the lists and the
--               accesses; Update, Info, Abstract, Listing and Devices are about them
--   Json        what the daemon takes of nlohmann::json: a parameter; Frame/Json has to_json and
--               from_json of common/h9_frame, Frame/Json/RoundTrip is about them
--   TcpSocket   common/tcp_socket and recv_complete_msg of common/json_tcp_socket; TcpSocket/System
--               has the calls of the system, TcpSocket/Send has send; Memory, Calls, Sound, Returns,
--               Receive, Header, Whole and Messages are about them
--   TcpServer   h9d/tcpserver: the list of the clients, with the steps of their threads; TcpServer/Sweep is about it
--   Client      h9d/tcpclientthread with the event queue of h9d/epoll; Wakeups, Delivery and Stall are
--               about the messages that other threads leave for a client; Client/Requests has what the
--               thread does with a message that it receives, and Batches is about it
--   Api         h9d/api: Api/Types has what the methods work on, Api/Nodes, Api/Session and Api/Devices
--               the methods, Api/Call the table and call; Access and Endings are about them
--   Slcan       bus_driver/slcan_driver: the lines; Slcan/Driver has the driver's state, Slcan/RoundTrip
--               and Slcan/Stream are about them
--   Drivers     bus_driver/udp_driver, loop_driver, pipe_driver, virtual_driver and socketcan_driver;
--               Drivers/Can is about them
--   AntennaSwitch  devs/antenna_switch_dev; AntennaSwitch/Trace is about it
--   Devs        h9d/dev, what a worker of dev_workers does with a task, and devs/atu and power_switch
--   Upload      h9fwupload/firmware_uploader; Upload/Image, Upload/Session and Upload/FromFile are
--               about it
--   Ihex        h9fwupload/h9fwupload: hex2bin and read_ihex; Ihex/Records and Ihex/Files are about them
--   Examples    the theorems at concrete frames
--
-- Numbers are natural, with the casts to fixed widths written out. State is passed explicitly; an
-- object that is shared by a pointer is a position in a heap. `none` of Option is an exception that
-- nothing catches or an undefined operation, such as an access out of an array's bounds; memory that
-- the code does not initialise is an argument. An operation under a lock is one step. What the bus
-- does with a request is an argument, the frames before and after its sequence number is known; a
-- timeout is the end of those frames. A driver is what it reports while it sends, or that it
-- throws; what it reports later is an event. All loops are
-- structural but that of recv_thread after an asynchronous event, which has a number of turns: as
-- many as frames wait in its queues and one more are enough, and that of recv_complete_msg, which has
-- fuel: more than the system calls that are still to be answered is enough. The calls of the system on
-- a socket are a list of answers; the steps of the threads of a client and of those that leave messages
-- for it are a list of events, so that every interleaving is one.
--
-- Not modelled: what the system does beyond its answers, logging, metrics beyond counting, the text of
-- JSON and the messages of JSON-RPC, configuration, the methods of the devices but those of the power
-- switch, the virtual nodes in Python, and the command-line clients but for the upload of firmware.
-- What the five workers of h9d/dev_workers do to one device at the same time is not modelled. What
-- happens on the bus after a call of the API has queued its request for a node is an argument, as events
-- of recv_thread.
pub mod Prelude
pub mod H9def
pub mod Json
pub mod Frame
pub mod Comparator
pub mod RawNode
pub mod BusFrame
pub mod Subject
pub mod Bus
pub mod Node
pub mod NodeMgr
pub mod Slcan
pub mod AntennaSwitch
pub mod Drivers
pub mod TcpSocket
pub mod TcpServer
pub mod Client
pub mod Api
pub mod Devs
pub mod Upload
pub mod Ihex
pub mod Examples
