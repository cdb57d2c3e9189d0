-- ===== src/Frames.antt =====
-- src/framedata.rs: the two frame formats, their accessors, and their conversion to `FrameData`.
pub mod Iter
pub mod Table
pub mod Merge
pub mod Search
use pdb.Prelude.{
  ℕ, zero, suc, ◌*◌, ◌/◌, ◌%◌, ◌^◌, bit_and, List, Bool, true, false, not, Option, none, some, take,
  drop, length, le_value, ◌==◌, ◌&&◌, ltb, leb, add32, mul32, u16_mod,
}

pub data FrameType : Type 0 where
  unknown fpo trap tss standard frame_data : FrameType

-- The fields are kept in little-endian order and read back by the accessors: the model keeps the
-- numbers that the accessors give.
pub record NewFrameData : Type 0 where
  pub code_start : ℕ
  pub code_size : ℕ
  pub locals_size : ℕ
  pub params_size : ℕ
  pub max_stack_size : ℕ
  pub frame_func : ℕ
  pub prolog_size : ℕ
  pub saved_regs_size : ℕ
  pub flags : ℕ

-- `has_seh`, `has_eh` and `is_function_start` of the new format.
abbrev pub new_has_seh : NewFrameData → Bool
new_has_seh f = not (bit_and f.flags 1 == 0)

abbrev pub new_has_eh : NewFrameData → Bool
new_has_eh f = not (bit_and f.flags 2 == 0)

abbrev pub new_is_function_start : NewFrameData → Bool
new_is_function_start f = not (bit_and f.flags 4 == 0)

pub record OldFrameData : Type 0 where
  pub code_start : ℕ
  pub code_size : ℕ
  pub locals_size : ℕ
  pub params_size : ℕ
  pub attributes : ℕ

-- `prolog_size`, `saved_regs_size`, `has_seh`, `uses_base_pointer` and `frame_type` of the old format.
abbrev pub old_prolog_size : OldFrameData → ℕ
old_prolog_size f = bit_and f.attributes 0xf

abbrev pub old_saved_regs_size : OldFrameData → ℕ
old_saved_regs_size f = bit_and (f.attributes / 2 ^ 8) 0x7

abbrev pub old_has_seh : OldFrameData → Bool
old_has_seh f = not (bit_and f.attributes 0x200 == 0)

abbrev pub old_uses_base_pointer : OldFrameData → Bool
old_uses_base_pointer f = not (bit_and f.attributes 0x400 == 0)

abbrev pub frame_type_of : ℕ → FrameType
frame_type_of zero = fpo
frame_type_of (suc zero) = trap
frame_type_of (suc (suc zero)) = tss
frame_type_of (suc (suc (suc zero))) = standard
frame_type_of (suc (suc (suc (suc zero)))) = frame_data
frame_type_of (suc (suc (suc (suc (suc n))))) = unknown

abbrev pub old_frame_type : OldFrameData → FrameType
old_frame_type f = frame_type_of (f.attributes / 2 ^ 14)

pub record FrameData : Type 0 where
  pub ty : FrameType
  pub code_start : ℕ
  pub code_size : ℕ
  pub locals_size : ℕ
  pub params_size : ℕ
  pub prolog_size : ℕ
  pub saved_regs_size : ℕ
  pub max_stack_size : Option ℕ
  pub has_structured_eh : Bool
  pub has_cpp_eh : Bool
  pub is_function_start : Bool
  pub uses_base_pointer : Bool
  pub program : Option ℕ

-- `From<&OldFrameData>` and `From<&NewFrameData>`.
abbrev pub from_old : OldFrameData → FrameData
from_old f = record {
  ty = old_frame_type f;
  code_start = f.code_start;
  code_size = f.code_size;
  locals_size = mul32 f.locals_size 4;
  params_size = mul32 f.params_size 4;
  prolog_size = old_prolog_size f;
  saved_regs_size = old_saved_regs_size f * 4 % u16_mod;
  max_stack_size = none;
  has_structured_eh = old_has_seh f;
  has_cpp_eh = false;
  is_function_start = false;
  uses_base_pointer = old_uses_base_pointer f;
  program = none;
}

abbrev pub from_new : NewFrameData → FrameData
from_new f = record {
  ty = frame_data;
  code_start = f.code_start;
  code_size = f.code_size;
  locals_size = f.locals_size;
  params_size = f.params_size;
  prolog_size = f.prolog_size;
  saved_regs_size = f.saved_regs_size;
  max_stack_size = some f.max_stack_size;
  has_structured_eh = new_has_seh f;
  has_cpp_eh = new_has_eh f;
  is_function_start = new_is_function_start f;
  uses_base_pointer = false;
  program = some f.frame_func;
}
