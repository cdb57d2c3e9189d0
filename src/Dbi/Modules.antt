-- ===== src/Dbi/Modules.antt =====
-- src/dbi.rs: modules and the iterator over them.
pub mod Safety
pub mod RoundTrip
use pdb.Prelude.{ℕ, List, Option}
use pdb.Scroll.{Scroll}
use pdb.Buffer.State.{Parser, ◌>>=◌, ◌>>◌, return, parse_u16, parse_u32, parse_cstring, align}
use pdb.Buffer.Items.{unless_empty}
use pdb.Streams.{StreamIndex, parse_stream_index}
use pdb.Dbi.Contributions.{DbiSectionContribution, parse_contribution}

pub record DbiModuleInfo : Type 0 where
  pub opened : ℕ
  pub section : DbiSectionContribution
  pub flags : ℕ
  pub stream : StreamIndex
  pub symbols_size : ℕ
  pub lines_size : ℕ
  pub c13_lines_size : ℕ
  pub files : ℕ
  pub padding : ℕ
  pub filename_offsets : ℕ
  pub source : ℕ
  pub compiler : ℕ

-- `Module`, with its names as bytes.
pub record DbiModule : Type 0 where
  pub info : DbiModuleInfo
  pub module_name : List ℕ
  pub object_file_name : List ℕ

module _ (sc : Scroll) where
  -- `DBIModuleInfo::parse`.
  unfoldable pub parse_module_info : Parser DbiModuleInfo
  parse_module_info = do
    opened ← parse_u32 sc
    section ← parse_contribution sc
    flags ← parse_u16 sc
    stream ← parse_stream_index sc
    symbols_size ← parse_u32 sc
    lines_size ← parse_u32 sc
    c13_lines_size ← parse_u32 sc
    files ← parse_u16 sc
    padding ← parse_u16 sc
    filename_offsets ← parse_u32 sc
    source ← parse_u32 sc
    compiler ← parse_u32 sc
    return (record {
      opened = opened;
      section = section;
      flags = flags;
      stream = stream;
      symbols_size = symbols_size;
      lines_size = lines_size;
      c13_lines_size = c13_lines_size;
      files = files;
      padding = padding;
      filename_offsets = filename_offsets;
      source = source;
      compiler = compiler;
    })

  unfoldable pub parse_module : Parser DbiModule
  parse_module = do
    info ← parse_module_info
    module_name ← parse_cstring
    object_file_name ← parse_cstring
    align 4
    return (record { info = info; module_name = module_name; object_file_name = object_file_name })

  -- `ModuleIter::next`.
  unfoldable pub next_module : Parser (Option DbiModule)
  next_module = unless_empty parse_module
