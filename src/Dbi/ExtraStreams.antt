-- ===== src/Dbi/ExtraStreams.antt =====
-- src/dbi.rs: the optional streams of the debug header.
pub mod Indexes
use pdb.Prelude.{ℕ, ◌%◌, ◌+◌, List, Bool, true, false, not, ◌==◌, if◌then◌else◌, add32, add64}
use pdb.Errors.{Result, ok, err, panic, invalid_stream_length}
use pdb.Errors
use pdb.Scroll.{Scroll}
use pdb.Buffer.State.{ParseBuffer, Parser, ◌>>=◌, return, fail, from_bytes, len, is_empty}
use pdb.Streams.{StreamIndex, no_stream, parse_stream_index}
use pdb.Dbi.Information.{DebugInformation, part_of}

pub record DbiExtraStreams : Type 0 where
  pub fpo : StreamIndex
  pub exception : StreamIndex
  pub fixup : StreamIndex
  pub omap_to_src : StreamIndex
  pub omap_from_src : StreamIndex
  pub section_headers : StreamIndex
  pub token_rid_map : StreamIndex
  pub xdata : StreamIndex
  pub pdata : StreamIndex
  pub framedata : StreamIndex
  pub original_section_headers : StreamIndex

module _ (sc : Scroll) where
  -- A missing field reads as no stream.
  unfoldable pub next_index : Parser StreamIndex
  next_index b = elim (is_empty b) [ true ↦ (ok no_stream, b) | false ↦ parse_stream_index sc b ]

  unfoldable pub parse_indexes : Parser DbiExtraStreams
  unfolding next_index
  parse_indexes = do
    fpo ← next_index
    exception ← next_index
    fixup ← next_index
    omap_to_src ← next_index
    omap_from_src ← next_index
    section_headers ← next_index
    token_rid_map ← next_index
    xdata ← next_index
    pdata ← next_index
    framedata ← next_index
    original_section_headers ← next_index
    return (record {
      fpo = fpo;
      exception = exception;
      fixup = fixup;
      omap_to_src = omap_to_src;
      omap_from_src = omap_from_src;
      section_headers = section_headers;
      token_rid_map = token_rid_map;
      xdata = xdata;
      pdata = pdata;
      framedata = framedata;
      original_section_headers = original_section_headers;
    })

  -- `DBIExtraStreams::parse`.
  unfoldable pub parse : Parser DbiExtraStreams
  parse b = elim (len b % 2 == 0) [
    | true ↦ parse_indexes b
    | false ↦ (err (invalid_stream_length "DbgDataHdr"), b)
  ]

  -- `DBIExtraStreams::new`: they lie behind all other parts of the stream.
  unfoldable pub new : DebugInformation → Result DbiExtraStreams
  unfolding part_of
  new d =
      let h = d.header in
      let sizes =
        add32
          (add32
            (add32 (add32 (add32 h.module_list_size h.section_contribution_size) h.section_map_size)
              h.file_info_size)
            h.type_server_map_size)
          h.ec_substream_size in
      Errors.◌>>=◌ (part_of (add64 d.header_len sizes) h.debug_header_size d)
        (λ bytes. (parse (from_bytes bytes)).0)
