-- ===== src/Buffer/Fields.antt =====
-- Structures of numbers: one rule for each field that is read, for where it takes the buffer.
use pdb.Prelude.{ℕ, ◌<◌, ◌^◌, List, ◌++◌, le_bytes}
use pdb.Scroll.{Width, size_of, Scroll}
use pdb.Buffer.State.{ParseBuffer, Parser, ◌>>=◌, parse_uint}
use pdb.Buffer.Yields.{Leaves, Yields, Yields-bind, Yields-parse_uint}
use pdb.Buffer.Advance.{Forward, Forward-bind, Forward-less, Forward-parse_uint}

module _ (sc : Scroll) where
  -- A field of which the bytes lie ahead, and what reads the rest.
  pub Yields-field :
      {B : Type 0} (w : Width) (b : ParseBuffer) (v : ℕ) (k : ℕ → Parser B) (after_it : List ℕ)
      (c : B) (rest : List ℕ)
      → v < 256 ^ size_of w
      → Leaves b (le_bytes (size_of w) v ++ after_it)
      → ((b' : ParseBuffer) → Leaves b' after_it → Yields (k v) b' c rest)
      → Yields (parse_uint sc w >>= k) b c rest
  Yields-field w b v k after_it c rest small l further =
      Yields-bind (parse_uint sc w) k b v after_it c rest
        (Yields-parse_uint sc w b v after_it small l) further

  pub Forward-field :
      {B : Type 0} {k : ℕ → Parser B} (w : Width)
      → ((v : ℕ) → Forward (k v) 0)
      → Forward (parse_uint sc w >>= k) 0
  Forward-field w further = Forward-bind (Forward-less (Forward-parse_uint sc w)) further

  -- The first field of a structure moves the buffer on.
  pub Forward-first :
      {B : Type 0} {k : ℕ → Parser B} (w : Width)
      → ((v : ℕ) → Forward (k v) 0)
      → Forward (parse_uint sc w >>= k) (size_of w)
  Forward-first w further = Forward-bind (Forward-parse_uint sc w) further
