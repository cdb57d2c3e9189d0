-- ===== src/Dbi/Contributions.antt =====
-- src/dbi.rs: section contributions and the iterator over them.
use pdb.Prelude.{ℕ, ◌+◌, Option, ◌==◌, if◌then◌else◌}
use pdb.Scroll.{Scroll}
use pdb.Buffer.State.{Parser, ◌>>=◌, ◌>>◌, return, parse_u16, parse_u32}
use pdb.Buffer.Items.{unless_empty}
use pdb.Address.{SectionOffset}

pub record DbiSectionContribution : Type 0 where
  pub place : SectionOffset
  pub size : ℕ
  pub characteristics : ℕ
  pub module_index : ℕ
  pub data_crc : ℕ
  pub reloc_crc : ℕ

pub data DbiSectionContributionStreamVersion : Type 0 where
  v60 v2 : DbiSectionContributionStreamVersion
  other_value : ℕ → DbiSectionContributionStreamVersion

-- `From<u32> for DBISectionContributionStreamVersion`.
abbrev pub contribution_version : ℕ → DbiSectionContributionStreamVersion
contribution_version v =
    if v == 0xeffe_0000 + 19970605
    then v60
    else if v == 0xeffe_0000 + 20140516
    then v2
    else other_value v

module _ (sc : Scroll) where
  -- `DBISectionContribution::parse`.
  unfoldable pub parse_contribution : Parser DbiSectionContribution
  parse_contribution = do
    section ← parse_u16 sc
    parse_u16 sc
    offset ← parse_u32 sc
    size ← parse_u32 sc
    characteristics ← parse_u32 sc
    module_index ← parse_u16 sc
    parse_u16 sc
    data_crc ← parse_u32 sc
    reloc_crc ← parse_u32 sc
    return (record {
      place = record { offset = offset; section = section };
      size = size;
      characteristics = characteristics;
      module_index = module_index;
      data_crc = data_crc;
      reloc_crc = reloc_crc;
    })

  -- `DBISectionContributionIter::parse`: the version, and the buffer behind it.
  unfoldable pub parse_contributions : Parser DbiSectionContributionStreamVersion
  parse_contributions = do version ← parse_u32 sc; return (contribution_version version)

  -- One item: the second version has a number more behind each contribution.
  unfoldable pub versioned_contribution :
      DbiSectionContributionStreamVersion → Parser DbiSectionContribution
  unfolding parse_contribution
  versioned_contribution v60 = parse_contribution
  versioned_contribution v2 = do
    contribution ← parse_contribution
    parse_u32 sc
    return contribution
  versioned_contribution (other_value v) = parse_contribution

  -- `DBISectionContributionIter::next`.
  unfoldable pub next_contribution :
      DbiSectionContributionStreamVersion → Parser (Option DbiSectionContribution)
  next_contribution version = unless_empty (versioned_contribution version)
