-- ===== src/Dbi/Modules/Safety.antt =====
-- src/dbi.rs: iteration over modules, contributions and the section map, on any bytes.
use pdb.Prelude.{Option, arith, length, suc}
use pdb.Scroll.{Scroll, u8, u16, u32}
use pdb.Buffer.State.{ParseBuffer, Parser}
use pdb.Buffer.Position.{IsValid}
use pdb.Buffer.Advance.{
  Forward, Forward-bind, Forward-less, Forward-one, Forward-return, Forward-parse_cstring,
  Forward-align,
}
use pdb.Buffer.Fields.{Forward-field, Forward-first}
use pdb.Buffer.Items.{Steps, Steps-unless_empty, collect, Ends, collect-Ends}
use pdb.Dbi.Contributions.{
  DbiSectionContributionStreamVersion, v60, v2, other_value, parse_contribution,
  versioned_contribution, next_contribution,
}
use pdb.Dbi.SectionMap.{parse_map_item, next_map_item}
use pdb.Dbi.Modules.{parse_module_info, parse_module, next_module}

module _ (sc : Scroll) where
  pub Forward-parse_contribution : Forward (parse_contribution sc) 2
  unfolding parse_contribution
  Forward-parse_contribution =
      Forward-first sc u16 λ section. search (Forward-field, Forward-return) depth 30

  pub Forward-parse_module_info : Forward (parse_module_info sc) 4
  unfolding parse_module_info
  Forward-parse_module_info = Forward-first sc u32 λ opened.
      Forward-bind (Forward-less Forward-parse_contribution)
        λ section. search (Forward-field, Forward-return) depth 30

  pub Forward-parse_module : Forward (parse_module sc) 1
  unfolding parse_module
  Forward-parse_module = Forward-bind (Forward-one Forward-parse_module_info) λ info.
      Forward-bind (Forward-less Forward-parse_cstring) λ module_name.
        Forward-bind (Forward-less Forward-parse_cstring) λ object_file_name.
          Forward-bind (Forward-align 4 (omega arith)) λ aligned. Forward-return _

  Forward-versioned_contribution :
      (version : DbiSectionContributionStreamVersion)
      → Forward (versioned_contribution sc version) 1
  unfolding versioned_contribution
  Forward-versioned_contribution v60 = Forward-one Forward-parse_contribution
  Forward-versioned_contribution v2 =
      Forward-bind (Forward-one Forward-parse_contribution)
        λ contribution. search (Forward-field, Forward-return)
  Forward-versioned_contribution (other_value v) = Forward-one Forward-parse_contribution

  Forward-parse_map_item : Forward (parse_map_item sc) 1
  unfolding parse_map_item
  Forward-parse_map_item =
      Forward-first sc u8 λ flags. search (Forward-field, Forward-return) depth 30

  -- On any bytes that a slice can hold, from any position in them, the iterations over modules, over
  -- section contributions of any version and over the section map come to an end, with all items or at
  -- an error, within one call more than there are bytes, and never panic.
  pub next_module-Ends :
      (version : DbiSectionContributionStreamVersion) (b : ParseBuffer)
      → IsValid b
      → Ends (collect (suc (length b.bytes)) (next_module sc) b)
        × Ends (collect (suc (length b.bytes)) (next_contribution sc version) b)
        × Ends (collect (suc (length b.bytes)) (next_map_item sc) b)
  unfolding next_module next_contribution next_map_item
  next_module-Ends version b v = (
    ends (Steps-unless_empty _ Forward-parse_module),
    ends (Steps-unless_empty _ (Forward-versioned_contribution version)),
    ends (Steps-unless_empty _ Forward-parse_map_item),
  )
    where
      ends :
          {A : Type 0} {next : Parser (Option A)}
          → Steps next
          → Ends (collect (suc (length b.bytes)) next b)
      ends {next = next} steps = collect-Ends next (suc (length b.bytes)) b steps v (omega arith)
