-- ===== src/Lib.antt =====
-- libcddb, the client library for CDDB servers, as functions over explicit state.
--
-- The program: a client fills a disc (lib/cddb_disc.c) with tracks (lib/cddb_track.c), a
-- connection (lib/cddb_conn.c) holds the settings and the socket, and the commands (lib/cddb_cmd.c)
-- query a server or the local cache for the disc and read its entry. Below them are the socket
-- functions (lib/cddb_net.c), the patterns of the server's lines (lib/cddb_regex.c), the lists of
-- results (lib/ll.c), and Base64 and character sets (lib/cddb_util.c).
--
-- The files:
--   Base        numbers, 32-bit words, bits, C strings, faults, lemmas on lists
--   Flags       the library's flags and RETURN_STR_OR_EMPTY: lib/cddb.c, include/cddb/cddb_ni.h
--   Library     libcddb_init and libcddb_shutdown: lib/cddb.c
--   Log         the messages, their levels and handlers: lib/cddb_log.c
--   Category    cddb_cat_t and CDDB_CATEGORY: include/cddb/cddb_disc.h, lib/cddb_disc.c
--   Charset     the conversion of one text: the calls of cddb_str_iconv with a descriptor for which
--               that function goes wrong on no text; Driver is the function, lib/cddb_util.c
--   Errors      the error codes and their texts: include/cddb/cddb_error.h, lib/cddb_error.c
--   Track       lib/cddb_track.c; Track/Lengths and Track/Again on cddb_track_get_length and _set_length
--   Disc        lib/cddb_disc.c; Fields has the getters and setters, Discid cddb_disc_calc_discid,
--               Chain the access to the tracks, Copy cddb_disc_copy, Convert cddb_disc_iconv,
--               Print cddb_disc_print and cddb_track_print
--   Base64      cddb_b64_encode of lib/cddb_util.c
--   LinkedList  lib/ll.c on a heap of elements
--   Regex       the patterns of an entry and cddb_regex_get_int: lib/cddb_regex.c; Words what the
--               patterns of queries, searches and sites share, Hex cddb_regex_get_hex
--   Record      cddb_parse_record of lib/cddb_cmd.c: Texts what a line does to the disc, Cases the
--               switch, Loop the loop and its end; Valid, Safe, Total, Reread and Titles the proofs
--   Cache       the cache modes and cddb_cache_query of lib/cddb_cmd.c; Lines has cddb_read_line on
--               a file of the cache, FileNames the names of its files and directories, Side
--               what cddb_parse_record asks of it
--   Format      %d, %8d and %08x of printf, as lib/cddb_cmd.c uses them
--   Submission  cddb_write_data of lib/cddb_cmd.c: the lines of an entry with their declared sizes.
--               Room, Layout, Exact and Written say what is in the buffer; Patterns, Reads, Tracks,
--               Titles, Exts, Fields, Reread and Cached that the parser reads it again
--   Response    cddb_get_response_code of lib/cddb_cmd.c
--   Net         sock_fgets, sock_fwrite and timeout_connect of lib/cddb_net.c, cddb_read_line of
--               lib/cddb_cmd.c
--   Site        lib/cddb_site.c; Parse is cddb_site_parse. A coordinate is its sign and its digits
--   Conn        lib/cddb_conn.c: Settings the getters and setters, Credentials, Charset, Email,
--               UseSite cddb_set_site, Lifetime the buffer, the list of sites and cddb_destroy,
--               and Connect with the handshake
--   Commands    the session and its writes: Send has cddb_send_cmd and HTTP, Read cddb_read and
--               cddb_cache_read, Results the answer to a query and cddb_query_next, Query cddb_query
--               and cddb_album, Write cddb_write, Sites cddb_sites, Search the parameters of
--               cddb_search, Links the pattern of a page's links, SearchPage cddb_search; Unsent,
--               Iterator, Freed, Errno, Found, QueryLine, Kept, Placed, Offline, Answers,
--               Online, LinkShape, Reach and Stale
--               are proofs, Reach with the calls on a connection as a step relation. The source is lib/cddb_cmd.c
--   Tests       examples
--
-- How the code is read. A `char *` is a list of bytes without the closing NUL, or `none` for NULL.
-- A pointer into a chain of tracks is a position, so a track is in one disc; the pointers of a
-- track are a `Place`. To follow NULL or a freed element, to read or write outside an array, or to
-- close a descriptor twice is a `fault`. `int` and `unsigned int` have 32 bits, `char` is signed.
-- Allocations are taken to succeed, and logging has no effect on the other functions. A buffer has at least one byte.
--
-- Loops are structural recursions where the code walks a chain, a text or a sequence of events.
-- The others have fuel: cddb_str_iconv has a round for each byte and one more, as a round that goes
-- on takes a byte; the links of a line have a round for each byte, as what is before a link is
-- shorter; the digit sum of a disc ID has 10 rounds, as an `int` has at most ten
-- digits; list_get and list_flush take one round for each element that the list counts; the
-- iterations over tracks and list items and the loop over the lines of a stream take one for each
-- and one more; the pattern `( seconds)*` has one round for each byte that is left.
--
-- Parameters: what a call of iconv does, with which a disc is converted by cddb_str_iconv, so that
-- whatever is said of a conversion supposes that this function goes wrong on no text; what iconv_open
-- returns; what stat, mkdir and fopen find; the clock, select, recv and send as a sequence of events;
-- the names that resolve, what connect, select and the socket's error are for a host, and the
-- server's lines; the files of the cache as a test.
-- What a handshake sends is a value of its own and no part of what a session has sent.
--
-- A command works on a session: the connection, the lines that the server still sends, what was
-- written to the socket, and the list of results with its iterator. The socket takes everything that
-- is written. A line or a header sets the error number as cddb_read_line does. A submission is
-- written into the bytes of the caller's stack, a parameter; what it writes to the cache is a value,
-- and the cache is a parameter: which files there are, can be read and can be made. A decimal number
-- has fuel for 20 digits, enough below 2^64; the lines of a cached file have one round for each byte
-- and one more.
--
-- A connection has no fields for its line buffer, its socket address and the open cache file; what is
-- read into the buffer is a value.
--
-- cddb_search works on two sessions, the caller's and that of the library's own connection.
--
-- Not modelled: the rounding of a coordinate to a floating-point number, cddb_site_set_location and
-- cddb_site_print; timeout_gethostbyname, a signal handler with a jump around a call of the system;
-- the two functions that print an error's text; and the programs under examples and tests.
pub mod Base
pub mod Flags
pub mod Category
pub mod Charset
pub mod Errors
pub mod Cache
pub mod Track
pub mod Disc
pub mod Base64
pub mod LinkedList
pub mod Regex
pub mod Format
pub mod Record
pub mod Response
pub mod Net
pub mod Site
pub mod Conn
pub mod Library
pub mod Log
pub mod Submission
pub mod Commands
mod Tests
