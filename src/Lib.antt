-- ===== src/Lib.antt =====
-- The flow retrieval service: how many page views and visitors an advertisement will reach. For
-- every ad position a bitmap records which sampled requests satisfy which targeting condition, and
-- the winning bid of each sample; a query takes the rows of its conditions together by OR inside a
-- group and AND between groups, and counts the samples under the resulting mask.
--
-- Parts, files and code:
--   Base             shared names, lists, bits, little-endian words, sums, files of bytes, maps
--   Bitmap           class Bitmap of common/bitmap.hpp
--   BidBitmap        class BidBitmap of include/bid_bitmap.hpp
--   UvBidBitmap      src/uv_bid_bitmap.cc, include/uv_bid_bitmap.h
--   PvBidBitmap      src/pv_bid_bitmap.cc, include/pv_bid_bitmap.h
--   RequestHandler   src/request_handler.cc and include/request_handler.h, the whole of Process
--   UvMergeBitmap    src/uv_merge_bitmap.cc, include/uv_merge_bitmap.h
--                    (its file in UvMergeBitmap/Files)
--   StepFunction     common/step_function.hpp
--   SharedMemory     include/shared_memory.hpp: its members and methods in SharedMemory/Memory,
--                    requests beside an update in SharedMemory/Readers
--   Service          main of src/service.cc: its start and its rounds of updates
--   StringExt        util/string_ext.hpp (its C strings in StringExt/CStrings)
--   TargetMap        src/target_map.cc and include/target_map.h
--   Index            src/index.cc and include/index.h (its file in the children but Add)
--   Builder          src/builder.cc: lines of samples to an index (what it comes to in
--                    Builder/Filled and Builder/Whole, its queries in Builder/Answers)
--   Numbers          what the code does with a double: conversions, arithmetic, reading
--   Param            src/param.cc and include/param.h
--   QueryParser      src/query_parser.cc and include/query_parser.h
--   MgThreadHandler  begin_request of src/mg_thread_handler.cc: from a request to its reply
--   Tests            the theorems at concrete inputs
--
-- State and operations. A method is a function on the record of the object's members. `none` is a
-- fault that C++ leaves undefined, an access outside an array or a signed overflow; so a theorem
-- that a call returns `some` result is a proof that it is free of them. Unsigned numbers wrap as
-- the code makes them wrap (`u32`, `u64`). And, Or take their operands by row or by a pointer into
-- the caller's buffer, which the result may overlap; their parallel loop is run in a given order of
-- rounds. The sums of Count are reductions, which are modelled by the loop in order. Load and Dump
-- work on the bytes of a file; what a new array holds before `fread` fills it is a parameter, and
-- so are the type of `double` with its order and arithmetic, the values of the JSON library and its
-- writer. Whether `new` finds memory or a file opens, the number of processors, the reading of a
-- `float`, and the orders in which Dump passes through hash maps (`Orders`, the order of a
-- dictionary) are parameters too. A text file is the list of the lines that getline reads. The web
-- server is a parameter by its `mg_read`, which does not overrun its buffer and returns the number of
-- bytes read where it returns more than 0 (`IsReader`), as include/mongoose.h says; where it returns
-- 0 or less, it may have put bytes into the buffer. A number in a text is read as `strtol` reads it,
-- and `atoi` is that, cut to an `int`. What `stat` and the opening of a file yield is a `Source`.
-- Requests and an update that go on at the same time are a sequence of steps (`Step`, `Reach`).
--
-- Bounds and fuel. The loop over the bits of a byte has a fuel of nine rounds, one more than a byte
-- has bits. The binary search of a step function has one round more than there are splits, since
-- each round makes the interval smaller. The loop that cuts a field of regions has a round for each
-- character, and the one that reads a request has one round more than the buffer has bytes: each
-- round but the last fills a byte at least. A 32-bit number has ten decimal digits at most. All
-- other loops are structural. The position in a string or an array is not wrapped where the code
-- counts it in 32 bits up to a size of 32 bits.
--
-- Not modelled: text output for logs and the ToString methods, the web server, its start and stop
-- and the threads' callbacks, signals and the command line, and the libraries for JSON, logging and
-- flags.
pub mod Base
pub mod Bitmap
pub mod BidBitmap
pub mod UvBidBitmap
pub mod PvBidBitmap
pub mod RequestHandler
pub mod UvMergeBitmap
pub mod StepFunction
pub mod SharedMemory
pub mod StringExt
pub mod TargetMap
pub mod Index
pub mod Numbers
pub mod Param
pub mod QueryParser
pub mod Builder
pub mod MgThreadHandler
pub mod Service
pub mod Tests
