-- ===== src/Daemon/Constants.antt =====
-- src/daemon/Constants.ts: the codes on a client's socket.
use fisk.Base.{ℕ}

-- client codes
abbrev pub acquire_cpp_slot : ℕ
acquire_cpp_slot = 1

abbrev pub acquire_compile_slot : ℕ
acquire_compile_slot = 2

abbrev pub release_cpp_slot : ℕ
release_cpp_slot = 3

abbrev pub release_compile_slot : ℕ
release_compile_slot = 4

abbrev pub json : ℕ
json = 5

abbrev pub acquire_slot : ℕ
acquire_slot = 6

abbrev pub release_local_slot : ℕ
release_local_slot = 7

-- daemon codes
abbrev pub cpp_slot_acquired : ℕ
cpp_slot_acquired = 10

abbrev pub compile_slot_acquired : ℕ
compile_slot_acquired = 11

abbrev pub json_response : ℕ
json_response = 12

abbrev pub local_slot_acquired : ℕ
local_slot_acquired = 13
