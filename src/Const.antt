-- ===== src/Const.antt =====
-- headers/const.h: the constants that the modelled code uses, and the platform's parameters.
use sistemi_operativi_proget.Common.{ℕ, Bool, ◌+◌, ◌*◌}

abbrev pub sem_dev_len : ℕ
sem_dev_len = 49

abbrev pub page_size : ℕ
page_size = 4096

abbrev pub word_len : ℕ
word_len = 4

abbrev pub kuseg : ℕ
kuseg = 0x80000000

abbrev pub pgfault_except : ℕ
pgfault_except = 0

abbrev pub general_except : ℕ
general_except = 1

abbrev pub max_proc : ℕ
max_proc = 20

abbrev pub mstatus_mie_mask : ℕ
mstatus_mie_mask = 0x8

abbrev pub mstatus_mpie_mask : ℕ
mstatus_mpie_mask = 0x80

abbrev pub mstatus_mpp_mask : ℕ
mstatus_mpp_mask = 0x1800

abbrev pub mstatus_mpp_m : ℕ
mstatus_mpp_m = 0x1800

abbrev pub mstatus_mpp_u : ℕ
mstatus_mpp_u = 0

abbrev pub mie_mtie_mask : ℕ
mie_mtie_mask = 0x40

abbrev pub mie_all : ℕ
mie_all = 0xFFFFFFFF

abbrev pub get_exec_code : ℕ
get_exec_code = 0x7C

abbrev pub priv_instr : ℕ
priv_instr = 10

abbrev pub vpn_shift : ℕ
vpn_shift = 12

abbrev pub max_pages : ℕ
max_pages = 32

abbrev pub ack : ℕ
ack = 1

abbrev pub psecond : ℕ
psecond = 100000

abbrev pub time_slice : ℕ
time_slice = 5000

abbrev pub never : ℕ
never = 0x7FFFFFFF

abbrev pub start_devreg : ℕ
start_devreg = 0x10000054

abbrev pub kernel_stack : ℕ
kernel_stack = 0x20001000

-- STATE_T_SIZE_IN_BYTES
abbrev pub state_t_size : ℕ
state_t_size = 148

-- What the code takes from outside the repository: macros of the uriscv headers, and the addresses
-- that the linker gives to deviceSemaphores and to the entry points.
pub record Platform : Type 0 where
  pub cause_exccode_mask : ℕ
  pub cause_is_int : ℕ → Bool
  pub entryhi_vpn_mask : ℕ
  pub device_semaphores : ℕ
  pub test_entry : ℕ
  pub refill_entry : ℕ
  pub exception_entry : ℕ

-- &deviceSemaphores[i]
abbrev pub device_semaphore : Platform → ℕ → ℕ
device_semaphore c i = c.device_semaphores + i * word_len

abbrev pub pool_size : ℕ
pool_size = 16

abbrev pub flash_read : ℕ
flash_read = 2

abbrev pub flash_write : ℕ
flash_write = 3

abbrev pub flash_ready : ℕ
flash_ready = 1

abbrev pub present_flag : ℕ
present_flag = 0x80000000

abbrev pub dirty_on : ℕ
dirty_on = 0x400

abbrev pub valid_on : ℕ
valid_on = 0x200

-- RAMSTART + OSFRAMES * PAGESIZE
abbrev pub swap_pool_start : ℕ
swap_pool_start = 0x20000000 + 32 * 4096

abbrev pub asid_shift : ℕ
asid_shift = 6

abbrev pub user_stack_top : ℕ
user_stack_top = 0xC0000000

abbrev pub uproc_start_addr : ℕ
uproc_start_addr = 0x800000B0

abbrev pub uproc_max : ℕ
uproc_max = 8

abbrev pub ok_char_trans : ℕ
ok_char_trans = 5

abbrev pub recvd : ℕ
recvd = 5

abbrev pub transmit_char : ℕ
transmit_char = 2

abbrev pub receive_char : ℕ
receive_char = 2
