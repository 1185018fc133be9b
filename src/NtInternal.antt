-- ===== src/NtInternal.antt =====
-- NtInternal.h: what `NtQueryInformationProcess` tells of a process. The structures of the handle table
-- stand in AllHandles.
use zombie_finder.Base.{ℕ, ◌/◌, ◌%◌, ◌^◌, Bool, ◌==◌}

pub record ProcessBasicInformation : Type 0 where
  pub exit_status : ℕ
  pub peb_base_address : ℕ
  pub affinity_mask : ℕ
  pub base_priority : ℕ
  pub unique_process_id : ℕ
  pub inherited_from_unique_process_id : ℕ

-- `flags` is the member of the union that holds all bits.
pub record ProcessExtendedBasicInformation : Type 0 where
  pub size : ℕ
  pub basic_info : ProcessBasicInformation
  pub flags : ℕ

-- A bit field of one bit; the first stands in the lowest bit.
abbrev bit_field : ℕ → ℕ → Bool
bit_field position flags = flags / 2 ^ position % 2 == 1

-- The third of the bit fields.
unfoldable pub is_process_deleting : ProcessExtendedBasicInformation → Bool
is_process_deleting info = bit_field 2 info.flags
