-- ===== src/Config.antt =====
-- libcuckoo/cuckoohash_config.hh and the constants of libcuckoo/cuckoohash_map.hh. `double` values
-- are not here: the default load factor 0.05 is an argument of the constructor.
use libcuckoo_cxx.Base.{ℕ, ◌*◌, ◌^◌, ◌%◌}

-- `size_t` and `uint64_t` have 64 bits.
abbrev pub u64 : ℕ → ℕ
u64 n = n % 2 ^ 64

abbrev pub default_slot_per_bucket : ℕ
default_slot_per_bucket = 4

abbrev pub default_size : ℕ
default_size = 2 ^ 16 * default_slot_per_bucket

-- LIBCUCKOO_LOCK_ARRAY_GRANULARITY
abbrev pub lock_array_granularity : ℕ
lock_array_granularity = 0

-- LIBCUCKOO_NO_MAXIMUM_HASHPOWER
abbrev pub no_maximum_hashpower : ℕ
no_maximum_hashpower = 0

-- kNumLocks
abbrev pub num_locks : ℕ
num_locks = 2 ^ 16

-- MAX_BFS_PATH_LEN
abbrev pub max_bfs_path_len : ℕ
max_bfs_path_len = 5

-- MAX_CUCKOO_COUNT
abbrev pub max_cuckoo_count : ℕ
max_cuckoo_count = 512
