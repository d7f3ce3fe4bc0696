-- ===== src/Lib.antt =====
-- HMSDK: the C and C++ programs of the repository, which measure and use memory of several kinds
-- (local DRAM and CXL).
--
-- The program bwprof (tools/bwprof/bwprof.cc) reads the memory counters of each socket in a loop,
-- beside a command that it executes, and shows the bandwidths or records them in a directory; it
-- reports on such a recording later. Its parts are called by `BandwidthProfiler`: the command
-- line gives a `Config`, the event processor turns two states of the counters into the bytes of
-- each socket, the loop accumulates them, the statistics turn them into bandwidths, and the
-- output formatter shows them or writes a line of bwprof.csv, which `printReport` reads. The
-- program hmctl (hmalloc/src/hmctl.c) sets the environment from which the library hmalloc takes
-- its memory policy, and executes another program. Text is a list of character codes; a C++
-- function that throws, or that leaves a vector's range, returns a `Result`.
--
-- Files:
-- - Base: natural numbers, Booleans, options and lists, passed on from the library; Base/Text:
--   text; Base/Int: `int` and `long` as integers; Base/Words: 64-bit arithmetic that wraps;
--   Base/Decimal: printing a number and the scan of `strtol` and `std::stoi`. Printing gives as
--   many rounds as the number plus one, and a round divides by ten. Base/Long: `atol` and `atoi`,
--   which keep the range of `long`.
-- - Bwprof/Result: how a function ends. Bwprof/Config: `CommandType`, `Config` and the test by
--   which loops skip sockets.
-- - Bwprof/Double: `double` is a parameter, with its arithmetic, its printing and `std::stod`;
--   `IsPrinted` states what the C++ library documents of the last two.
-- - Bwprof/Stats: `SocketMemoryData`, `BWStats`, `toBW`, `toSizeGB`, `calculateRatio`,
--   `StatsCalculator::calculate`.
-- - Bwprof/Split: `splitString`, and the loop of `std::getline` over a file.
-- - Bwprof/Output: `OutputFormatter` (the CSV file is the text written to it). Bwprof/Report:
--   `printReport`.
-- - Bwprof/Pcm: the PCM library, a git submodule, is a parameter; `IsCounting` states what its
--   counters count. Bwprof/Events: `EventProcessor`, `PCMManager::readStates` and the
--   accumulation.
-- - Bwprof/Process: `ProcessExecutor`, with what `fork` and `waitpid` return as arguments, and
--   the report on the command's exit.
-- - Bwprof/Monitor: `runMonitoringLoop`. A run is a list of rounds, each with what the world
--   answers in it; the loop has no other bound in the code. Monitor/Totals, Monitor/Rows,
--   Monitor/Closed, Monitor/Screens and Monitor/Ending are about the totals, the lines that are
--   written, the loop without a file, what the screen shows, and the exit of the command.
-- - Bwprof/Options: `parse_option`, over the calls that argp makes.
-- - Bwprof/Info: `printInfo`; Bwprof/Info/Collect: `SystemInfoCollector::collectAndSave`, where
--   what the machine answers is a record.
-- - Bwprof/Screen: `printFormattedOutput`. Bwprof/Dump: `printDump`. Bwprof/Clock:
--   `getMonotonicTimestamp`.
-- - Bwprof/Files: `fileExists`, `dirExists`, `createDir`, `renamePath` and `removePathRecursive`,
--   over a `std::filesystem` that is a parameter; `IsFileSystem` states what is documented of its
--   calls. Bwprof/Directory: `prepareDataDirectory`, with the state that it leaves also where it
--   throws.
-- - Bwprof/Profiler: `initialize`, `runRecordMode` and `runTopMode`, composed from the parts,
--   over a record of what the machine answers; Profiler/Main: `run` and `main`, with the exit
--   status. The state of the file system is that of the directories; the texts of bwprof.csv and
--   info.txt are values beside it.
-- - Hmalloc/Env: env.c of hmalloc/src, which reads the library's settings from the environment.
-- - Hmalloc/Library: hmalloc.c of hmalloc/src, over the functions of Hmalloc/Libc, which are
--   those of the kernel, libc, libnuma and jemalloc and stand for a parameter; `IsLibc` states
--   what their manuals document, and for `mallocx` of 0 bytes, which the manual leaves undefined,
--   what jemalloc does. `hmalloc_init` is that of a build with assertions or without, by a
--   Boolean. The mask of the nodes is one 64-bit number, as the source holds it; what `mbind`
--   does with it is stated only up to 64 bits, since above them the kernel reads behind that
--   number, and for the bits that both the manual and Linux let it use. A pointer is a number.
--   Hmalloc/Power is about its macro `is_pow2`, a bitwise test whose 64 rounds are the width of a
--   `size_t`; Hmalloc/Mapping and Hmalloc/Blocks are about what the functions leave mapped and
--   allocated, where Hmalloc/Bag holds addresses up to order, and Hmalloc/Client is a program
--   that calls the library in any order, as a step relation.
-- - Hmctl: hmctl.c of hmalloc/src. The constants of <numaif.h> and `numa_parse_nodestring` are
--   parameters; a shift that C leaves undefined is `none`. Hmctl/Settings and Hmctl/Exclusive
--   hold what hmctl and the library agree on; Hmctl/Main is `main`, up to `execv`, and
--   Hmctl/Main/Bound goes on from there to the memory that the library maps in the executed
--   program.
-- - Bwprof/Sample, Bwprof/Files/Sample, Bwprof/Profiler/Sample, Hmalloc/Sample, and the modules
--   called Tests: small inputs to run the code on.
--
-- Not modelled: the messages on standard output, the control codes that clear the screen, the
-- clean-up of PCM at the end, the calls that jemalloc makes of its hooks, and what a file holds
-- that an exception leaves half written. The Python scripts of tools/ are not C or C++; PCM, argp
-- and the C++ library are libraries.
pub mod Base
pub mod Bwprof
pub mod Hmalloc
pub mod Hmctl
