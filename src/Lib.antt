-- ===== src/Lib.antt =====
-- A verification of csae295, a C++ library for the messages between vehicles and a traffic cloud.
--
-- The program's parts: the messages (include/protocol/message), which turn themselves to bytes and
-- back; the packer (include/protocol/packer.h, src/protocol/packer.cc), which allocates the bytes
-- of a message and, for received bytes, finds the class and calls a handler; and the controller
-- with its sockets, timer and queues, which moves packed messages between two connections.
--
-- Prelude holds the shared names: tests on numbers, lists, and the type Run of a piece of code that
-- may touch memory it does not own. A `fault` is such an access, undefined behaviour in C++; the
-- code has no exceptions of its own.
--
-- Memory is the C++ underneath: Memory/Word has the bytes of an integer and its byte swap,
-- Memory/Read and Memory/Write the loads and stores at a running offset, Memory/Buffer the pointer
-- argument, which may be null, and the guard that each derived class puts between its base's bytes
-- and its own, Memory/Text the C strings, strncpy and the texts with a length byte. An object is a
-- list of bytes. The machine is little-endian with 64-bit sizes, as on the platforms the library is
-- built for, so that size_t wraps around at 2^64 (Memory.Word.sub_size) and the code's _big_endian
-- swaps the bytes.
--
-- Message has a module for each class, with the functions named as in the source: Header
-- (MessageHeader, include/protocol/message/message.h), Inh and InhRes (Veh2CloudInh and
-- Cloud2VehInhRes, include/protocol/message/veh2cloud_inh.h), State and State2 (Veh2CloudState and
-- Veh2CloudState2, include/protocol/message/veh2cloud_state.h). new_* is the constructor over the
-- fields, default_* what the constructor over a buffer starts from: the storage's old contents are
-- an argument, since some members have no initialiser. get_fields and put_fields are the bodies of
-- from_bytes and to_bytes after their guards. State/Fields and State2/Fields hold the records.
-- Below each class, Codec gives the wire format as a list of bytes (encode), the validity of a
-- message, and what to_bytes does against that format; Codec or Decode has from_bytes. For Inh,
-- whose to_bytes exchanges the versions, encode is the bytes that the code writes, and Inh/Format
-- the format that the fields stand for, each version behind its own length. Inh/Faults has what
-- goes wrong there.
--
-- Message/Print has what the five operator<< share: sprintf with the formats that the code uses,
-- into `ostr` of 1024 bytes, bytes_to_string into `str` of 256 bytes, and the running offset. A
-- label is its UTF-8 bytes. Print/Digits and Print/Lines are lemmas on the digits and on one line,
-- Print/Laws says what a table of lines shows. Below each class, Print is its operator<< over the
-- bytes that the stream has got so far, and Print/Table measures it by the wire format. Print/Total
-- is about the prints of a header and of an answer, which return.
--
-- Packer is pack and unpack. The array on the stack is an argument of pack, for its old contents. A
-- message class is an instance of IsMessage, since the functions are not virtual. The handler is a
-- record of functions on a state. Print is operator<< of the class that a message has, Print/Table
-- the tables it is printed as, and Print/Calm what of an answer that arrives its print needs. Pack,
-- Front and Unpack are lemmas; RoundTrip, Overflow, Safety and Notify have the properties, and
-- Constructed has those of messages from a constructor. Tests has messages, runs and the theorems
-- at them.
--
-- Util has the parts below: Util/Hex is bytes_to_string and string_to_bytes of
-- src/util/converter.c, a C string being memory with a NUL in it, its digits those of "%02X" and
-- its white space that of the C locale. Util/Bcd has string_to_bcd and bcd_time_to_utc_milliseconds
-- of the same file: `atoi(&c)` reads behind the single character, so what stands there is an
-- argument, and Util/Calendar counts days year by year and month by month, for comparison.
-- Util/Charset is code_convert, over any iconv that keeps to the room it is given. Util/PrintBuffer
-- is print_buffer up to the line that it logs. Util/BlockQueue is include/util/block_queue.h,
-- Util/Timer and Util/Socket are src/util/timer.cc and src/util/socketlib.cc; what the kernel
-- answers to their calls is an argument.
--
-- Controller is include/controller.h and src/controller.cc. Controller/Channel is the queue and the
-- send thread of one channel: a run is a list of events, each a step under the mutex or an access
-- to the flag, which is taken as atomic, so that all interleavings are lists; Fifo, Drain, Stop and
-- Stuck have its properties. Controller/Receive is the receive thread over a list of results of
-- recv and the handler of its messages, which prints each one to std::cout before it tells the
-- callback; what has been printed so far is a part of the state. Receive/Safety is about its
-- memory, Receive/Heard about what the handler hears and prints, and Receive/Exchange about the way
-- from one controller to the callback of another. The up and the down channel have the same code
-- there. Controller/Lifecycle is start, stop, the callbacks of the sockets, the retries and the
-- heartbeat, as functions on the state of the controller that the threads and timers call one after
-- the other. A channel keeps what was done to it, in order: the calls of the kernel, the flag, the
-- threads that were made and joined, and the notify of the queue. Whether the threads end when they
-- are joined is an argument, Stopping, and a join that waits for ever is a fault; Channel/Stop is
-- about when the send thread does not end.
--
-- Example is the callback of examples/main.cc: its two timers, its count and the messages that it
-- gives to `Controller::send`. Example/Timers runs it over any sequence of calls from the
-- controller and the timers, where a stopped timer does not call; Example/Silence and
-- Example/Answered are about a connection without and with an answer, Example/Messages about what
-- the packer makes of its messages. SelfTest is test/test.h, test/packer_handler.h and
-- test/main.cc: each message is printed, packed, unpacked and printed by the handler, with what
-- std::cout has got as a list of bytes.
--
-- Loops run over the counts that the code reads, over the characters of a string or over a list of
-- events, by structural recursion, so every function is total. Fuel bounds the digits of a number
-- only: ten for a port of 32 bits, twenty decimal or sixteen hexadecimal digits for the values of
-- at most 64 bits that are printed.
--
-- Not modelled: the logging macros, which write a log; the line end that printf writes for each
-- chunk; util/util.h, which reads the clock and computes with floating point; what a heartbeat
-- sends (its bytes are those of Packer/Constructed); and `main` of the example, which starts a
-- controller and loops.
pub mod Prelude
pub mod Memory
pub mod Message
pub mod Packer
pub mod Util
pub mod Controller
pub mod Example
pub mod SelfTest
pub mod Tests
