-- ===== src/Lib.antt =====
-- The INT sink of int-platform-dpdk: int_t4p4s_dpdk/p4int_influxdb, a C++ program that receives the
-- telemetry packets of a P4 data plane, takes each one apart, and exports reports to InfluxDB.
--
-- The main thread runs loop_proccess (p4int.cc): it waits for a packet in recvfrom, reads the INT
-- header and the metadata of each hop, updates the memory of the flow and of the hops, and hands the
-- report to IntExporter::sendData (p4_influxdb.cc), which puts it into one of several rings
-- (ringbuffer.h) in turn. For each ring one thread, udp_sender or http_sender, pops the reports,
-- writes them as lines of InfluxDB's line protocol (add_report) and sends them in batches.
--
-- - Types: the structures of p4int.h. A `char` array is the list of the bytes of its text, a machine
--   integer a number, an `int64_t` an integer.
-- - Words, Words/Endian: machine arithmetic with its wrap-around, and ntoh64 of p4int.cc beside libc's
--   ntohs and ntohl, on a little-endian host.
-- - Text: what printf's %u, %lu, %ld and %li print. Twenty digits are the fuel, which 2 ^ 64 needs.
--   Text/Pieces takes a text apart at a character, Text/Numbers reads numbers back.
-- - Outcome: a result or a fault, a point at which the C++ has no defined behaviour (an access outside
--   an array, a division by zero).
-- - Packet: the receive buffer of 65536 bytes and the packed structures int_influx_t and int_meta_t
--   laid over it, read byte by byte.
-- - Collector/Header: get_int_header_data and the flow table, a std::map as an association list;
--   Collector/Header/Runs follows one flow among many packets; Collector/Header/AnyOrder takes the table
--   for what it remembers of each flow, as a quotient.
-- - Collector/Nodes: get_int_node_data; its loop runs on the number of hops.
-- - Collector/Packets: the globals as a record World; process_packet, report_to_influx, setup_stop and
--   loop_proccess as functions on it. What recvfrom does is a list of arrivals, each with the bytes
--   that it writes and whether SIGINT comes during the wait for it; what the senders do to the exporter
--   during the waits is a parameter of loop_proccess.
-- - Queue: a bounded queue, which is what a ring promises.
-- - Ring: ringbuffer<T, Size>, its methods as functions. Ring/Spsc has the same methods as steps, each
--   one access to an atomic or to the array, of one producer and one consumer that interleave in any
--   order. An acquire load sees any store of the other thread that is not older than the last one it
--   saw; what was written before a store is there for who has seen it.
-- - Arguments: parse_arguments over the results of getopt; atoi, which may be undefined, and strtoumax are
--   parameters, and whether `errno` is ERANGE is a state that they share. What is printed is left out, and
--   strcpy is checked for the end of its buffer.
-- - Exporter: IntExporter::sendData, its loop on the number of rounds that it has; Exporter/Start: the
--   constructor, with the threads that it starts as values.
-- - Report: add_report, whose sprintf into 400 bytes is checked for its end. Report/Reader is a reader of
--   the part of the line protocol that the program writes, which stands for the database; Report/Points
--   says which points a report is meant to become; Sender/Decoded brings the two together, and
--   Collector/Packets/Readable has the reports of packets fit for it.
-- - Sender: udp_sender and http_sender over the sequence of the results of pop. The transport is a
--   parameter: for the number and the text of a call of `send`, the exception that it throws, if any.
--   A sender that fails to send drops the text, as the code does: `sent` holds what was handed over.
-- - Pipeline: the exporter with its threads. A run is a sequence of turns, each a call of sendData or one
--   poll of one thread with what it does up to the next, in any order. The record Threads holds the
--   rings, each thread's variables, and as its history what was taken, refused and popped.
--   Pipeline/Drain, Prompt and Delivery follow one thread that goes on polling. Sender/Blocks says of which
--   reports each single text is made, Sender/Errors what is printed of exceptions, and Pipeline/Fit that
--   what is in the rings can be read back.
-- - System: the main thread beside the senders. A run is a sequence of events, each a round of
--   loop_proccess with the packet that it receives, or a poll of one thread. System/Loop brings this together
--   with loop_proccess. System/Trace are the turns of
--   Pipeline that the events come to, System/Simulation and System/Refine that they lead to the same
--   state, System/Delivery what follows for the texts, from the packets on, and System/Server what for
--   the requests that http_sender's sockets make of the server.
-- - Sleep: delay_usecs, whose `goto retry` runs on fuel: one more round than the number of the first call
--   that is not interrupted is enough.
-- - Udp: UDP.cc; boost::asio is a parameter, for opening the socket too.
-- - Http: HTTP.cc; libcurl is a parameter, whose curl_easy_escape may return NULL. Http itself has the URLs, the response codes that are taken for
--   failures, and send as a transport; Http/Handle and Http/Client the class on its handles, which are
--   records of the options set on them; Http/Requests, Posts and Queries what is asked of the server,
--   Http/Lifetime which handles are freed.
-- - Output: what the program prints while it runs, as one text. Output/Reader is a reader that takes from
--   it the values behind a label; Output/Shows and Output/Verbose follow the loop in the verbose mode.
-- - Filter: load_flt, with sscanf as a parameter. UnixTime: convertToUnixNs. Nothing calls the two.
-- - Main: prepare_socket and main, with the system as a parameter. The loop runs beside the threads that the
--   constructor starts, as the events of System.
-- - Samples, Samples/Safe, and a module Tests in each part: concrete inputs.
--
-- Not modelled: the fixed text of print_help and the messages of parse_arguments and prepare_socket, the
-- getters of HTTP, when the threads sleep between polls (delay_usecs itself is modelled), the scheduling
-- and the memory of the threads beyond Ring/Spsc, and the P4 programs.
pub mod Arguments
pub mod Base
pub mod Collector
pub mod Exporter
pub mod Filter
pub mod Http
pub mod Main
pub mod Outcome
pub mod Output
pub mod Packet
pub mod Pipeline
pub mod Queue
pub mod Report
pub mod Ring
pub mod Samples
pub mod Sender
pub mod Sleep
pub mod System
pub mod Text
pub mod Types
pub mod Udp
pub mod UnixTime
pub mod Words
