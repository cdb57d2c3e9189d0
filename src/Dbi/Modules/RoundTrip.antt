-- ===== src/Dbi/Modules/RoundTrip.antt =====
-- src/dbi.rs: a list of modules as it is stored, and its iteration.
use pdb.Prelude.{
  ℕ, ◌+◌, ◌%◌, ◌<◌, ◌^◌, ◌≡◌, refl, sym, ap, ◌∙◌, List, [], ◌∷◌, ◌++◌, append_assoc, length, All,
  le_bytes, length-append, arith,
}
use mathlib.Core.Path.{subst}
use pdb.Errors.{ok}
use pdb.Scroll.{Scroll, u16, u32}
use pdb.Buffer.State.{ParseBuffer, from_bytes, parse_cstring, align}
use pdb.Buffer.Position.{padding, padding_lem}
use pdb.Buffer.Text.{IsText}
use pdb.Buffer.Yields.{Leaves, Yields, Yields-bind, from_bytes-Leaves}
use pdb.Buffer.Advance.{Forward-parse_cstring, Forward-align}
use pdb.Buffer.Fields.{Yields-field}
use pdb.Buffer.Padded.{
  padding_shift, Yields-parse_cstring, Yields-align, moved_by, zeros, length-zeros,
}
use pdb.Buffer.Items.{collect, finished}
use pdb.Buffer.Laid.{laid, YieldsAt, collect-unless_empty}
use pdb.Dbi.Contributions.{DbiSectionContribution, parse_contribution}
use pdb.Dbi.Modules.{DbiModuleInfo, DbiModule, parse_module_info, parse_module, next_module}
use pdb.Dbi.Modules.Safety.{Forward-parse_module_info}

-- A contribution, with zeros where the reader skips, in front of other bytes.
abbrev pub contribution_bytes : DbiSectionContribution → List ℕ → List ℕ
contribution_bytes c rest =
    le_bytes 2 c.place.section
    ++ (le_bytes 2 0
        ++ (le_bytes 4 c.place.offset
            ++ (le_bytes 4 c.size
                ++ (le_bytes 4 c.characteristics
                    ++ (le_bytes 2 c.module_index
                        ++ (le_bytes 2 0
                            ++ (le_bytes 4 c.data_crc ++ (le_bytes 4 c.reloc_crc ++ rest))))))))

pub record IsContribution (c : DbiSectionContribution) : Type 0 where
  pub section : c.place.section < 2 ^ 16
  pub offset : c.place.offset < 2 ^ 32
  pub size : c.size < 2 ^ 32
  pub characteristics : c.characteristics < 2 ^ 32
  pub module_index : c.module_index < 2 ^ 16
  pub data_crc : c.data_crc < 2 ^ 32
  pub reloc_crc : c.reloc_crc < 2 ^ 32

abbrev pub info_bytes : DbiModuleInfo → List ℕ → List ℕ
info_bytes i rest =
    le_bytes 4 i.opened
    ++ contribution_bytes i.section (
        le_bytes 2 i.flags
        ++ (le_bytes 2 i.stream
            ++ (le_bytes 4 i.symbols_size
                ++ (le_bytes 4 i.lines_size
                    ++ (le_bytes 4 i.c13_lines_size
                        ++ (le_bytes 2 i.files
                            ++ (le_bytes 2 i.padding
                                ++ (le_bytes 4 i.filename_offsets
                                    ++ (le_bytes 4 i.source
                                        ++ (le_bytes 4 i.compiler ++ rest))))))))))

pub record IsInfo (i : DbiModuleInfo) : Type 0 where
  pub opened : i.opened < 2 ^ 32
  pub section : IsContribution i.section
  pub flags : i.flags < 2 ^ 16
  pub stream : i.stream < 2 ^ 16
  pub symbols_size : i.symbols_size < 2 ^ 32
  pub lines_size : i.lines_size < 2 ^ 32
  pub c13_lines_size : i.c13_lines_size < 2 ^ 32
  pub files : i.files < 2 ^ 16
  pub padding : i.padding < 2 ^ 16
  pub filename_offsets : i.filename_offsets < 2 ^ 32
  pub source : i.source < 2 ^ 32
  pub compiler : i.compiler < 2 ^ 32

module _ (sc : Scroll) where
  Yields-parse_contribution :
      (b : ParseBuffer) (c : DbiSectionContribution) (rest : List ℕ)
      → IsContribution c
      → Leaves b (contribution_bytes c rest)
      → Yields (parse_contribution sc) b c rest
  unfolding parse_contribution
  Yields-parse_contribution b c rest v l =
      Yields-field sc u16 b c.place.section _ _ c rest (omega (arith, v.section)) l λ b1 l1.
        Yields-field sc u16 b1 0 _ _ c rest (omega arith) l1 λ b2 l2.
          Yields-field sc u32 b2 c.place.offset _ _ c rest (omega (arith, v.offset)) l2 λ b3 l3.
            Yields-field sc u32 b3 c.size _ _ c rest (omega (arith, v.size)) l3 λ b4 l4.
              Yields-field sc u32 b4 c.characteristics _ _ c rest (omega (arith, v.characteristics))
                l4
                λ b5 l5.
                  Yields-field sc u16 b5 c.module_index _ _ c rest (omega (arith, v.module_index))
                    l5
                    λ b6 l6. Yields-field sc u16 b6 0 _ _ c rest (omega arith) l6 λ b7 l7.
                      Yields-field sc u32 b7 c.data_crc _ _ c rest (omega (arith, v.data_crc)) l7
                        λ b8 l8.
                          Yields-field sc u32 b8 c.reloc_crc _ _ c rest (omega (arith, v.reloc_crc))
                            l8 λ b9 l9. (b9, refl, l9)

  Yields-parse_module_info :
      (b : ParseBuffer) (i : DbiModuleInfo) (rest : List ℕ)
      → IsInfo i
      → Leaves b (info_bytes i rest)
      → Yields (parse_module_info sc) b i rest
  unfolding parse_module_info
  Yields-parse_module_info b i rest v l =
      Yields-field sc u32 b i.opened _ _ i rest (omega (arith, v.opened)) l λ b1 l1.
        Yields-bind (parse_contribution sc) _ b1 i.section _ i rest
          (Yields-parse_contribution b1 i.section _ v.section l1)
          λ b2 l2. Yields-field sc u16 b2 i.flags _ _ i rest (omega (arith, v.flags)) l2 λ b3 l3.
            Yields-field sc u16 b3 i.stream _ _ i rest (omega (arith, v.stream)) l3 λ b4 l4.
              Yields-field sc u32 b4 i.symbols_size _ _ i rest (omega (arith, v.symbols_size)) l4
                λ b5 l5.
                  Yields-field sc u32 b5 i.lines_size _ _ i rest (omega (arith, v.lines_size)) l5
                    λ b6 l6.
                      Yields-field sc u32 b6 i.c13_lines_size _ _ i rest
                        (omega (arith, v.c13_lines_size)) l6
                        λ b7 l7.
                          Yields-field sc u16 b7 i.files _ _ i rest (omega (arith, v.files)) l7
                            λ b8 l8.
                              Yields-field sc u16 b8 i.padding _ _ i rest (omega (arith, v.padding))
                                l8
                                λ b9 l9.
                                  Yields-field sc u32 b9 i.filename_offsets _ _ i rest
                                    (omega (arith, v.filename_offsets)) l9
                                    λ b10 l10.
                                      Yields-field sc u32 b10 i.source _ _ i rest
                                        (omega (arith, v.source)) l10
                                        λ b11 l11.
                                          Yields-field sc u32 b11 i.compiler _ _ i rest
                                            (omega (arith, v.compiler)) l11
                                            λ b12 l12. (b12, refl, l12)

-- A module up to its padding, in front of other bytes, and with its padding.
abbrev pub unpadded : DbiModule → List ℕ → List ℕ
unpadded m rest = info_bytes m.info (m.module_name ++ (0 ∷ (m.object_file_name ++ (0 ∷ rest))))

abbrev pub module_bytes : DbiModule → List ℕ
module_bytes m = unpadded m (zeros (padding 4 (length (unpadded m []))))

pub record IsModule (m : DbiModule) : Type 0 where
  pub info : IsInfo m.info
  pub module_name : IsText m.module_name
  pub object_file_name : IsText m.object_file_name

info_bytes-append :
    (i : DbiModuleInfo) (xs rest : List ℕ) → info_bytes i xs ++ rest ≡ info_bytes i (xs ++ rest)
info_bytes-append i xs rest = simp append_assoc

abbrev IsAligned : ℕ → Type 0
IsAligned pos = pos % 4 ≡ 0

length-text : (s rest : List ℕ) → length (s ++ (0 ∷ rest)) ≡ length s + 1 + length rest
length-text s rest = omega (arith, length-append s (0 ∷ rest))

length-unpadded :
    (m : DbiModule)
    → length (unpadded m [])
      ≡ length (info_bytes m.info []) + (length m.module_name + 1) + (length m.object_file_name + 1)
length-unpadded m = omega (
  arith,
  ap length (info_bytes-append m.info [] (m.module_name ++ (0 ∷ (m.object_file_name ++ (0 ∷ []))))),
  length-append (info_bytes m.info []) (m.module_name ++ (0 ∷ (m.object_file_name ++ (0 ∷ [])))),
  length-text m.module_name (m.object_file_name ++ (0 ∷ [])),
  length-text m.object_file_name [],
)

-- A text that is read, and how far.
text_at :
    (b : ParseBuffer) (s rest : List ℕ)
    → IsText s
    → Leaves b (s ++ (0 ∷ rest))
    → (after : ParseBuffer) × (parse_cstring b ≡ (ok s, after))
      × Leaves after rest
      × (after.pos ≡ b.pos + (length s + 1))
text_at b s rest h l =
    let (after, runs, l') = Yields-parse_cstring b s rest h l in
    (
      after,
      runs,
      l',
      omega (
        arith,
        length-text s [],
        moved_by parse_cstring 1 b after s (s ++ (0 ∷ [])) rest Forward-parse_cstring runs
            (subst (Leaves b) (sym (append_assoc s (0 ∷ []) rest)) l) l',
      ),
    )

module _ (sc : Scroll) where
  parse_module_run :
      (m : DbiModule) (b b1 b2 b3 b4 : ParseBuffer)
      → parse_module_info sc b ≡ (ok m.info, b1)
      → parse_cstring b1 ≡ (ok m.module_name, b2)
      → parse_cstring b2 ≡ (ok m.object_file_name, b3)
      → align 4 b3 ≡ (ok tt, b4)
      → parse_module sc b ≡ (ok m, b4)
  unfolding parse_module
  parse_module_run m b b1 b2 b3 b4 h1 h2 h3 h4 = rw (h1, h2, h3, h4) refl

  parse_module-YieldsAt :
      (m : DbiModule) (b : ParseBuffer) (rest : List ℕ)
      → IsModule m
      → IsAligned b.pos
      → Leaves b (module_bytes m ++ rest)
      → YieldsAt IsAligned (parse_module sc b) m rest
  parse_module-YieldsAt m b rest v at l =
      let pad = padding 4 (length (unpadded m [])) in
      let behind = m.module_name ++ (0 ∷ (m.object_file_name ++ (0 ∷ (zeros pad ++ rest)))) in
      let l0 : Leaves b (info_bytes m.info behind) = subst (Leaves b) (simp append_assoc) l in
      let (b1, runs1, l1) = Yields-parse_module_info sc b m.info behind v.info l0 in
      let (b2, runs2, l2, moved2) = text_at b1 m.module_name _ v.module_name l1 in
      let (b3, runs3, l3, moved3) = text_at b2 m.object_file_name _ v.object_file_name l2 in
      let moved1 =
        moved_by (parse_module_info sc) 4 b b1 m.info (info_bytes m.info []) behind
          (Forward-parse_module_info sc) runs1
          (subst (Leaves b) (sym (info_bytes-append m.info [] behind)) l0) l1 in
      let place : b3.pos ≡ b.pos + length (unpadded m []) =
        omega (arith, length-unpadded m, moved1, moved2, moved3) in
      let same : padding 4 b3.pos ≡ pad = ap (padding 4) place ∙ padding_shift b.pos _ at in
      let (b4, runs4, l4) =
        Yields-align 4 b3 rest (omega arith)
          (subst (λ (n : ℕ). Leaves b3 (zeros n ++ rest)) (sym same) l3) in
      let moved4 =
        moved_by (align 4) 0 b3 b4 tt (zeros pad) rest (Forward-align 4 (omega arith)) runs4 l3
          l4 in
      let aligned : IsAligned b4.pos =
        omega (arith, moved4, length-zeros pad, same, (padding_lem 4 b3.pos (omega arith)).1) in
      (b4, parse_module_run m b b1 b2 b3 b4 runs1 runs2 runs3 runs4, l4, aligned)

  -- A list of modules, each with its two names ended by a zero byte and padded with zeros to a multiple
  -- of four bytes, gives exactly these modules in order when it is iterated over, where every number
  -- fits its field, the names have no zero byte, and the whole fits in a slice.
  pub modules-module_bytes :
      (modules : List DbiModule) (fuel : ℕ)
      → All IsModule modules
      → length (laid module_bytes modules) < 2 ^ 63
      → length modules < fuel
      → collect fuel (next_module sc) (from_bytes (laid module_bytes modules)) ≡ finished modules
  unfolding next_module
  modules-module_bytes modules fuel v small enough =
      collect-unless_empty module_bytes IsAligned (parse_module sc) modules fuel
        (from_bytes (laid module_bytes modules)) (gives modules v) refl (from_bytes-Leaves _ small)
        enough
    where
      gives :
          (modules : List DbiModule)
          → All IsModule modules
          → All
              (λ m.
                (0 < length (module_bytes m))
                × ((b : ParseBuffer) (rest : List ℕ)
                    → IsAligned b.pos
                    → Leaves b (module_bytes m ++ rest)
                    → YieldsAt IsAligned (parse_module sc b) m rest))
              modules
      gives [] h = tt
      gives (m ∷ modules) (h, hs) =
          ((omega arith, λ b rest at l. parse_module-YieldsAt m b rest h at l), gives modules hs)
