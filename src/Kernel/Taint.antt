-- ===== src/Kernel/Taint.antt =====
-- The taint flags of bpf/include/linux_kernel.h.
use jidick.Base.{ℕ}

-- `TAINT_…`; the last is their number.
pub data Taint : Type 0 where
  proprietary_module : Taint
  forced_module : Taint
  cpu_out_of_spec : Taint
  forced_rmmod : Taint
  machine_check : Taint
  bad_page : Taint
  user : Taint
  die : Taint
  overridden_acpi_table : Taint
  warn : Taint
  crap : Taint
  firmware_workaround : Taint
  oot_module : Taint
  unsigned_module : Taint
  softlockup : Taint
  livepatch : Taint
  aux : Taint
  randstruct : Taint
  taint_18 : Taint
  taint_19 : Taint
  taint_20 : Taint
  taint_21 : Taint
  taint_22 : Taint
  taint_23 : Taint
  taint_24 : Taint
  taint_25 : Taint
  taint_26 : Taint
  support_removed : Taint
  taint_28 : Taint
  tech_preview : Taint
  unprivileged_bpf : Taint
  taint_31 : Taint
  flags_count : Taint

abbrev pub taint_flag : Taint → ℕ
taint_flag proprietary_module = 0
taint_flag forced_module = 1
taint_flag cpu_out_of_spec = 2
taint_flag forced_rmmod = 3
taint_flag machine_check = 4
taint_flag bad_page = 5
taint_flag user = 6
taint_flag die = 7
taint_flag overridden_acpi_table = 8
taint_flag warn = 9
taint_flag crap = 10
taint_flag firmware_workaround = 11
taint_flag oot_module = 12
taint_flag unsigned_module = 13
taint_flag softlockup = 14
taint_flag livepatch = 15
taint_flag aux = 16
taint_flag randstruct = 17
taint_flag taint_18 = 18
taint_flag taint_19 = 19
taint_flag taint_20 = 20
taint_flag taint_21 = 21
taint_flag taint_22 = 22
taint_flag taint_23 = 23
taint_flag taint_24 = 24
taint_flag taint_25 = 25
taint_flag taint_26 = 26
taint_flag support_removed = 27
taint_flag taint_28 = 28
taint_flag tech_preview = 29
taint_flag unprivileged_bpf = 30
taint_flag taint_31 = 31
taint_flag flags_count = 32
