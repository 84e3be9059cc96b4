-- ===== src/Lib.antt =====
-- CBUSPicoLib: a C++ library for model-railway modules on a Raspberry Pi Pico, which talk CBUS over CAN.
--
-- A module is an object derived from CBUSbase (CBUS.cpp). Its process() runs the LEDs and the push button, takes
-- frames from the CAN controller, and gives them to parseCBUSMsg, which either calls the application's handler for
-- an event that the module has learned or carries out a configuration command. The events, the node variables and
-- the identity are kept by CBUSConfig, in flash or in an EEPROM. Frames wait in CBUSCircularBuffer. Messages longer
-- than a frame go through CBUSLongMessage. CBUSGridConnect passes frames to clients over TCP, as text.
--
-- The parts, their files, and what corresponds to what:
-- - Common: the shared names of the library, the Boolean tests on native numbers, arrays as lists with native
--   indices, machine words. u8, u16 and u32 are the wrap-around of the unsigned types, sub32 is 32-bit subtraction,
--   and low_byte and high_byte are the macros of CBUSUtil.h.
-- - Frame: class CANFrame of CBUSCircularBuffer.h.
-- - CircularBuffer: CBUSCircularBuffer.cpp. The record has the class's members; put, get, peek, clear and size are the
--   methods. A pointer into the ring is an index. CircularBuffer/Queue is the abstract queue that drops its
--   oldest frame when it is full, CircularBuffer/Refine and History relate the ring to it.
-- - GridConnect: GridConnectPicoW/CBUSGridConnect.cpp. GridConnect/Codec has encodeGC and decodeGC, GridConnect/Hex the
--   hexadecimal digits; strtol is written for the characters that reach it. GridConnect/Server is the TCP server:
--   TCPServer_t with the static members, and extractAndQueueGC; Server/Send what goes to the client, Server/Client the
--   callbacks of lwIP and the calls of the module. lwIP's buffers are the record Lwip, a parameter, with LwipLaws for what
--   its documentation says; its answers are arguments, and the calls that change something there are a list in the state.
--   The clock that put reads for each frame of the network is a function from the number of frames given to the bus. The
--   array of a text keeps what was written behind its end, also when the text is reset.
--   Server/Scan is an independent reading of the stream, one character at a time, and Server/Relay puts two servers
--   together.
-- - Switch and Led: CBUSSwitch.cpp and CBUSLED.cpp. A call's reads of the clock and the pin are its arguments; what is
--   written to a pin is a result.
-- - Config: CBUSConfig.cpp. Config/Flash is the RAM cache of the flash sector, Config/Storage reading and writing and
--   the identity, Config/Events the slots of events and their hash table. The Pico SDK is the record Driver, a
--   parameter; what its documentation says of erasing and programming is the record FlashLaws of Config/Flash/Sync,
--   which Config/Tests instantiates with a chip that is a list of 4096 bytes.
-- - LongMessage: class CBUSLongMessage of CBUSLongMessage.cpp, its sending half in LongMessage/Send and its receiving
--   half in LongMessage/Receive. LongMessage/Transfer puts a sender and a receiver together. LongMessage/Contexts is
--   CBUSLongMessageEx, which has several messages in transfer, each in a context; Contexts/Crc has crc16 and crc32,
--   and Contexts/Exchange puts a sender and a receiver together. The state of a receiver has one field that the code has
--   not, `overran`: whether a byte was written outside the receive buffer.
-- - Node: class CBUSbase of CBUS.cpp. Node/Sending has the send functions, Node/Commands the do functions and, in
--   Dispatch, parseFLiMCmd, Node/Events parseCBUSMsg and parseCBUSEvent, Node/Flim the mode and the button, and
--   Node/Enumerate the self-enumeration of CAN IDs, from the answers to the ID that is picked. sendMessage is the derived class's: the frames given to it
--   are collected in the state. The opcodes are those of cbusdefs.h, read from its copy in tests/mocks.
-- - Can: CBUSACAN2040.cpp, the class derived from CBUSbase: its queues, the callback of the controller, and sending. The
--   state has the node, the Grid Connect server and what the controller was given to send. Can/Process is process() of
--   CBUSbase, with the three queues that it takes messages from; CBUScoe is the ring of the module's own events.
-- - Params: CBUSParams.cpp, the block of parameters that RQNPN reads.
-- - WiFi: CBUSWiFi.cpp. The entries of config.ini, the card and the radio are arguments. WiFi/Client is the connection to
--   the router, WiFi/Page the tags of the status page.
--
-- Loops are structural: over the bytes of a frame or of a buffer, over the slots of the event table, over the bits of a
-- byte. Rounds that a loop is given are the bound that stands in the code (five bytes of a fragment, eight bits,
-- EE_MAX_EVENTS slots, num_messages), so no result is cut off. The recursion of extractAndQueueGC has as many rounds as its
-- buffer has characters, and one, which is always enough. A counter of type int_fast8_t is an int on the Pico.
--
-- Not modelled: ACAN2040.cpp and the interrupt, which only pass calls on to the can2040 library; SystemTick.cpp, whose
-- results are arguments; the parser of INI files, FatFs, lwIP and the Pico SDK, which are not in the repository; the
-- interactive resetModule, which polls the button for thirty seconds; destructors; allocation failures, except for the
-- buffers of the rings and of lwIP; interrupts between the steps of a function and the second core.
pub mod Common
pub mod Frame
pub mod CircularBuffer
pub mod GridConnect
pub mod Switch
pub mod Led
pub mod Config
pub mod LongMessage
pub mod Node
pub mod Params
pub mod Can
pub mod WiFi
