-- ===== src/Lib.antt =====
-- tarpack keeps snapshots of a directory tree in a repository: a scan writes a manifest of the
-- tree, packing groups the new objects into compressed tar archives of a target size, and restoring
-- or verifying reads them back. A snapshot manifest names the objects, the object index says which
-- pack holds each of them, and the packs' names are numbers in sequence.
--
-- The files and the code they are about:
--   Prelude            Boolean tests, lists with native lengths and indices, C strings as bytes.
--   Packer/Size        tp_parse_size and tp_estimate_entry_cost (src/packer.c).
--   Packer/Bins        the bins that become packs: tp_bin_assign_next_fit in Bins/NextFit,
--                      tp_bin_assign_ffd with ffd_sort_indices and bin_rem_push in Bins/Ffd.
--   Packer/Ordering    the counting sort of tp_pack_multi that lines the objects up by bin, and the
--                      slices of its result that are written as packs.
--   Packer/Pipeline    collect_cb and tp_pack_collect, and the part of tp_pack_multi that selects the
--                      new objects, partitions them into classes and bins each class.
--   Checksum           tp_checksums_append and tp_checksums_read (src/checksum.c), and
--                      rewrite_checksums_filtered (src/packer.c), on the bytes of SHA256SUMS.
--   Index              the entries of the object index (src/index.c); Load has tp_index_load with
--                      numeric_suffix, and the lookups.
--   Scanner            tp_scan (src/scanner.c) with the object table (src/object.c): what the system
--                      calls answer for each path is the parameter `ScanSystem`.
--   Packer/Commit      write_one_pack_and_commit with tp_index_append, the loop that writes the packs,
--                      and runs of tp_pack_multi in sequence, each of which may crash: the effects on
--                      the names in packs/ and on the bytes of objects.jsonl and SHA256SUMS are a
--                      list, in the order in which the code makes them durable, and a crash keeps
--                      a number of the first ones.
--   Packer/Names       next_pack_number and the names of packs, with the conversions of sscanf.
--   Packer/Recovery    repair_index_tail, which cuts off a torn last line of objects.jsonl;
--                      Recovery/Sweep has collect_indexed_packs and the part of recover_crashed_state
--                      that removes files.
--   Manifest           the entries of snapshots (src/manifest.h).
--   Restore/PathSafe   tp_restore_path_safe (src/restore.c).
--   Restore            tp_restore: Links has tp_restore_collect_links, Plan the tests and the lookups
--                      before anything is touched, Extract the rest, as the list of the calls on the
--                      destination; Order has the comparisons for qsort. What a call returns, what
--                      the archives hold, SHA-256 and qsort are the parameter `System`.
--   Packer/PackManifest  tp_pack_manifest_read (src/packer.c).
--   Verify             tp_verify (src/verify.c) in both modes: the files, the parsed manifests and what
--                      libarchive reads are the parameter `Repo`. Its theorems take file names without
--                      slashes that exist in packs/ to be listed there.
--   Upload             tp_upload (src/upload.c): the command lines and the loop that runs them; how a
--                      process ends is a parameter.
--   Util/Base64        tp_base64_encode (src/util.c) and the decoders of src/packer.c,
--                      src/manifest.c and src/index.c.
-- tp_pack_multi collects the objects of a snapshot, drops those that the index has, calls the cost
-- estimate for each of the others, one of the bin assignments on the costs of each class, and the
-- counting sort on the result. Paths that are not UTF-8 travel through Base64. tp_scan loads the index
-- to give the objects of a snapshot their ids, tp_restore looks the ids up in it, and tp_verify holds
-- the index, SHA256SUMS and the packs against each other.
--
-- How the code is read: a buffer or C string is the list of its bytes, an array a list, and a
-- failing function returns an Option whose `none` is the code's -1 or NULL. Sizes are natural
-- numbers; the overflow guards of the source are written out. The sum of next-fit is an int64_t and wraps
-- around in the model; the theorems on the capacity of its packs bound the target so that it does not.
-- The estimate of an object's size is read for sizes from 0 to 2^63 - 2561, where its sums are int64_t. Shifts and masks on disjoint bits are
-- sums, quotients and remainders. Failures of malloc are values of `Memory` in the first-fit
-- assignment, since the sort has a fallback for them, and a parameter of the upload; elsewhere they
-- are left out. In Packer/Commit an effect is durable before the next one, which is what the calls of
-- fsync are for, and bytes that are appended to a file arrive in their order.
--
-- Fuel: `sort_fuel`, the recursion of the index sort, is called with the length of the list, which is
-- more than the depth of a recursion on halves; `find_good`, the loop over the chunks of a file, with
-- the file's length, and every round takes at least a byte; `passes`, the loop over the packs of a
-- restore, with the number of objects, and every round takes at least one of them; `scan_dir` with
-- 4096, the size of the buffer of a path, which bounds the depth of the tree that is walked; `decimal`
-- with 20 digits, which is enough for an unsigned long. The theorems hold for the calls as they are made.
--
-- Not modelled: the vendored cJSON, uthash and SHA-256 and the calls of libarchive; the sampling of
-- entropy, which computes with floating-point numbers; output and warnings; and, so far, the
-- reading of snapshot manifests, the writing of manifests and archives, a crash within the recovery
-- itself, and the command line.
pub mod Checksum
pub mod Index
pub mod Manifest
pub mod Packer
pub mod Prelude
pub mod Restore
pub mod Scanner
pub mod Upload
pub mod Util
pub mod Verify
