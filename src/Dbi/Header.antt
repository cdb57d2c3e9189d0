-- ===== src/Dbi/Header.antt =====
-- src/dbi.rs: the header of the debug information, and the types of machines.
use pdb.Prelude.{ℕ, List, [], ◌∷◌, not, ◌==◌, if◌then◌else◌, u32_max}
use pdb.Errors.{unimplemented_feature}
use pdb.Scroll.{Scroll}
use pdb.Buffer.State.{Parser, ◌>>=◌, return, fail, parse_u16, parse_u32}
use pdb.Streams.{StreamIndex, parse_stream_index}

pub data HeaderVersion : Type 0 where
  v41 v50 v60 v70 v110 : HeaderVersion
  other_value : ℕ → HeaderVersion

-- `From<u32> for HeaderVersion`.
abbrev pub header_version : ℕ → HeaderVersion
header_version v =
    if v == 930803
    then v41
    else if v == 19960307
    then v50
    else if v == 19970606
    then v60
    else if v == 19990903
    then v70
    else if v == 20091201
    then v110
    else other_value v

pub record DbiHeader : Type 0 where
  pub signature : ℕ
  pub version : HeaderVersion
  pub age : ℕ
  pub gs_symbols_stream : StreamIndex
  pub internal_version : ℕ
  pub ps_symbols_stream : StreamIndex
  pub pdb_dll_build_version : ℕ
  pub symbol_records_stream : StreamIndex
  pub pdb_dll_rbld_version : ℕ
  pub module_list_size : ℕ
  pub section_contribution_size : ℕ
  pub section_map_size : ℕ
  pub file_info_size : ℕ
  pub type_server_map_size : ℕ
  pub mfc_type_server_index : ℕ
  pub debug_header_size : ℕ
  pub ec_substream_size : ℕ
  pub flags : ℕ
  pub machine_type : ℕ
  pub reserved : ℕ

module _ (sc : Scroll) where
  unfoldable pub parse_fields : Parser DbiHeader
  parse_fields = do
    signature ← parse_u32 sc
    version ← parse_u32 sc
    age ← parse_u32 sc
    gs_symbols_stream ← parse_stream_index sc
    internal_version ← parse_u16 sc
    ps_symbols_stream ← parse_stream_index sc
    pdb_dll_build_version ← parse_u16 sc
    symbol_records_stream ← parse_stream_index sc
    pdb_dll_rbld_version ← parse_u16 sc
    module_list_size ← parse_u32 sc
    section_contribution_size ← parse_u32 sc
    section_map_size ← parse_u32 sc
    file_info_size ← parse_u32 sc
    type_server_map_size ← parse_u32 sc
    mfc_type_server_index ← parse_u32 sc
    debug_header_size ← parse_u32 sc
    ec_substream_size ← parse_u32 sc
    flags ← parse_u16 sc
    machine_type ← parse_u16 sc
    reserved ← parse_u32 sc
    return (record {
      signature = signature;
      version = header_version version;
      age = age;
      gs_symbols_stream = gs_symbols_stream;
      internal_version = internal_version;
      ps_symbols_stream = ps_symbols_stream;
      pdb_dll_build_version = pdb_dll_build_version;
      symbol_records_stream = symbol_records_stream;
      pdb_dll_rbld_version = pdb_dll_rbld_version;
      module_list_size = module_list_size;
      section_contribution_size = section_contribution_size;
      section_map_size = section_map_size;
      file_info_size = file_info_size;
      type_server_map_size = type_server_map_size;
      mfc_type_server_index = mfc_type_server_index;
      debug_header_size = debug_header_size;
      ec_substream_size = ec_substream_size;
      flags = flags;
      machine_type = machine_type;
      reserved = reserved;
    })

  -- `DBIHeader::parse_buf`.
  unfoldable pub parse_header : Parser DbiHeader
  parse_header = do
    header ← parse_fields
    (if not (header.signature == u32_max)
        then fail (unimplemented_feature "ancient DBI header")
        else return header)

pub data MachineType : Type 0 where
  unknown am33 amd64 arm arm64 arm_nt ebc x86 ia64 m32r mips16 mips_fpu mips_fpu16 : MachineType
  power_pc power_pcfp r4000 risc_v32 risc_v64 risc_v128 sh3 sh3dsp sh4 sh5 thumb : MachineType
  wce_mips_v2 invalid : MachineType

-- The machines by their numbers.
abbrev pub machines : List (ℕ × MachineType)
machines =
    (0xffff, invalid)
    ∷ (0x0, unknown)
    ∷ (0x13, am33)
    ∷ (0x8664, amd64)
    ∷ (0x1C0, arm)
    ∷ (0xAA64, arm64)
    ∷ (0x1C4, arm_nt)
    ∷ (0xEBC, ebc)
    ∷ (0x14C, x86)
    ∷ (0x200, ia64)
    ∷ (0x9041, m32r)
    ∷ (0x266, mips16)
    ∷ (0x366, mips_fpu)
    ∷ (0x466, mips_fpu16)
    ∷ (0x1F0, power_pc)
    ∷ (0x1F1, power_pcfp)
    ∷ (0x166, r4000)
    ∷ (0x5032, risc_v32)
    ∷ (0x5064, risc_v64)
    ∷ (0x5128, risc_v128)
    ∷ (0x1A2, sh3)
    ∷ (0x1A3, sh3dsp)
    ∷ (0x1A6, sh4)
    ∷ (0x1A8, sh5)
    ∷ (0x1C2, thumb)
    ∷ (0x169, wce_mips_v2)
    ∷ []

abbrev pub machine_among : List (ℕ × MachineType) → ℕ → MachineType
machine_among [] value = unknown
machine_among ((number, machine) ∷ rest) value =
    if value == number then machine else machine_among rest value

-- `From<u16> for MachineType`: the number of no machine is `Unknown`.
unfoldable pub machine_type_of : ℕ → MachineType
machine_type_of value = machine_among machines value
