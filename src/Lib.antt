-- ===== src/Lib.antt =====
-- BTCRig, a bitcoin miner in C. A session with a pool (src/stratum.c) receives work templates as
-- lines of JSON and builds jobs of them (miner_build_job of src/miner.c). The miner (src/miner.c)
-- hands ranges of nonces of the current job to its worker threads, whose scans (src/sha256d.c)
-- report the nonces that meet the target; the shares wait in a ring until the session submits
-- them.
--
-- The files and what they model:
--
-- `Word` has the 32-bit helpers of src/sha256d.c, src/miner.c and src/main.c, with Word/Swap and
--   Word/Rotate on what they compute. A machine word is a number with its wrap written out.
-- `CString, Hex` has copy_checked and the readers of hexadecimal of src/miner.c (hex_value to
--   prevhash_to_header_bytes), with Hex/RoundTrip and Hex/Header.
-- `Fips` has FIPS 180-4, written from the standard; the specification that the engine is proved
--   against.
-- `Sha256d` has src/sha256d.c. Constants and Compress are sha256_compress_words and
--   sha256_compress_block; Midstate is sha256d_80_midstate_prepare and the openssl and fast-c
--   back ends; Scan is sha256d_scan_nonce_range_generic, with the calls of on_match as a list;
--   Backend is the choice of a back end, the accelerated kernels being values of a build. OpenSsl
--   is libcrypto, a parameter with its documented laws. The modules below them hold the proofs.
-- `Target` has miner_hash_meets_target of src/miner.c and hash_words_meet_target of
--   src/sha256d.c.
-- `ShareQueue` has the ring of 256 shares in struct miner.
-- `Miner` has struct miner. Each section under miner->lock is a function on it: Workers has those
--   of the threads, Control those of the session, Counters the snapshots, Config the creation,
--   Start is miner_start in a build with OpenCL and CUDA, what the devices and pthread_create
--   answer being an argument. History lists sections, starts and stops in any order, so that
--   every interleaving of the threads is a history.
-- `Job` has miner_build_job, miner_target_from_difficulty, miner_hash_difficulty and
--   miner_format_extranonce2 of src/miner.c. A double is a value of the parameter Doubles, of
--   which no law is used.
-- `Stratum` has src/stratum.c. Pending is register_pending_share and complete_pending_share,
--   Session is rebuild_miner_job, flush_shares and maybe_roll_extranonce, Handlers is
--   stratum_process_line and all that it calls, over the parameter Json for jansson.
-- `Stratum.Lines, Stratum.Client` has read_line with conn_read, its sockets being events, and the
--   loop of stratum_run_client: handle_keyboard_input, flush_shares, maybe_roll_extranonce,
--   read_line and what a line allows to be sent. A request is data, and a turn says whether its
--   send succeeds. Between the calls of the loop that read the miner a turn has any sections of
--   the workers, as Miner.Workers lists them; one more moment, inside maybe_roll_extranonce and
--   rebuild_miner_job, is left out, since what the workers do there could as well come just
--   before or just after.
-- `Stratum.Connection` has conn_open with conn_open_once, and conn_write, over what connect_tcp,
--   OpenSSL and send report.
-- `Url` has parse_pool_url of src/stratum.c, and parse_endpoint and parse_host_port of
--   src/proxy_main.c.
-- `Relay` has proxy_loop of src/proxy_main.c, over what stream_read and stream_write report in
--   each round.
-- `Reconnect` has the loop of main in src/stratum_main.c that opens session after session, with
--   retry_delay_seconds and the phases of src/donation.c. A session is its result; the clock
--   counts nanoseconds where the code has a double.
-- `Cpu` has src/cpu_info.c as Linux builds it: parse_cpu_dir_name, finalize_sysfs_info,
--   cpu_info_detect and cpu_info_affinity_plan. The files of /sys, sysconf and qsort are
--   parameters.
-- `Base, Tests` has shared names and lemmas; concrete runs and instances of the theorems.
--
-- A string is the list of its bytes without the final zero, an array a list with writes in place.
-- The words of a local array that the code does not set are an argument, so what is proved holds
-- whatever they are. Loops recurse on the number of rounds that are left. Two loops of the source
-- have a bound of another kind: the loops on the exponent of a target recurse on the distance to
-- their bound on it, and printf of hexadecimal runs on 16 rounds, which is the digits of 64 bits.
--
-- An integer of the pool has 64 bits and is cast to int where the code does. Ids of shares are
-- taken to be below 2 ^ 31, and allocations to succeed. Not modelled: the kernels in intrinsics,
-- CUDA and OpenCL with their drivers, sockets and TLS, the options, configuration files and
-- measurements of the front ends, the listener of the proxy, and the drivers that miner_start
-- asks for devices.
pub mod Base
pub mod CString
pub mod Cpu
pub mod Fips
pub mod Hex
pub mod Job
pub mod Miner
pub mod Reconnect
pub mod Relay
pub mod Sha256d
pub mod ShareQueue
pub mod Stratum
pub mod Target
pub mod Tests
pub mod Url
pub mod Word
