-- ===== src/Symbols/Iter/Safety.antt =====
-- src/symbol/mod.rs: the iterator over symbols, on any bytes.
use pdb.Prelude.{suc, ◌≤◌, ◌<◌, ◌≡◌, length, arith, Bool, true, false, Option}
use pdb.Scroll.{Scroll, u16}
use pdb.Buffer.State.{ParseBuffer, Parser}
use pdb.Buffer.Position.{IsValid}
use pdb.Buffer.Advance.{
  Forward, Forward-bind, Forward-less, Forward-one, Forward-return, Forward-fail,
  Forward-parse_uint, Forward-take_bytes,
}
use pdb.Buffer.Items.{Steps, StepsAt, collect, Ends, collect-Ends}
use pdb.Buffer.Loop.{Chooses, Steps-while_more}
use pdb.Types.Header.{reject}
use pdb.Symbols.{Symbol, is_padding}
use pdb.Symbols.Iter.{unless_padding, read_symbol, choose, next}

Forward-reject :
    (condition : Bool) (failure : Parser (Unit {0}))
    → Forward failure 0
    → Forward (reject condition failure) 0
Forward-reject true failure f = f
Forward-reject false failure f = Forward-return tt

module _ (sc : Scroll) where
  pub read_symbol-Forward : Forward (read_symbol sc) 2
  unfolding read_symbol
  read_symbol-Forward = record {
    advances = λ b v.
        (Forward-bind (Forward-parse_uint sc u16) λ symbol_length.
            Forward-bind (Forward-reject _ _ (Forward-fail _)) λ long_enough.
              Forward-bind (Forward-less (Forward-take_bytes symbol_length))
                λ bytes. Forward-return _).advances
          b v;
  }

  Chooses-choose : Chooses (read_symbol sc) (choose sc)
  Chooses-choose = record { chosen = λ symbol. kept_or_not (is_padding sc symbol) symbol }
    where
      kept_or_not :
          (padding : Bool) (symbol : Symbol) (more : Parser (Option Symbol)) (b after : ParseBuffer)
          → after.bytes ≡ b.bytes
          → b.pos < after.pos
          → after.pos ≤ length b.bytes
          → StepsAt b (more after)
          → StepsAt b (unless_padding padding symbol more after)
      kept_or_not true symbol more b after same onward within h = h
      kept_or_not false symbol more b after same onward within h = (same, onward, within)

  pub Steps-next : Steps (next sc)
  unfolding next
  Steps-next =
      Steps-while_more (read_symbol sc) (choose sc) (Forward-one read_symbol-Forward) Chooses-choose

  -- On any bytes that a slice can hold, and from any position in them, a client that calls `next` of the
  -- symbol iterator until it gives no symbol or an error comes to an end within one call more than there
  -- are bytes, and no call panics or loops without end.
  pub next-Ends : (b : ParseBuffer) → IsValid b → Ends (collect (suc (length b.bytes)) (next sc) b)
  next-Ends b v = collect-Ends (next sc) (suc (length b.bytes)) b Steps-next v (omega arith)
