-- ===== src/Buffer/Loop.antt =====
-- The loops `while !buf.is_empty() { .. }` of iterators that skip some of what they read.
use pdb.Prelude.{
  ℕ, zero, suc, ◌-◌, ◌≤◌, ◌<◌, ◌≡◌, ap, length, arith, Option, none, Bool-cases, inl, inr,
  if◌then◌else◌,
}
use pdb.Errors.{Result, ok, err, panic}
use pdb.Buffer.State.{ParseBuffer, Parser, and_then, ◌>>=◌, is_empty}
use pdb.Buffer.Position.{IsValid}
use pdb.Buffer.Advance.{Advances, Forward}
use pdb.Buffer.Items.{StepsAt, StepsAt-onward, Steps}

-- A round reads something and either ends the loop or goes on. Each round moves on, so that a round for
-- each byte is fuel enough.
module _ {R A : Type 0} (read : Parser R) (choose : R → Parser (Option A) → Parser (Option A)) where
  unfoldable pub while_more : ℕ → Parser (Option A)
  while_more zero b = (panic, b)
  while_more (suc fuel) b =
      let more = while_more fuel in
      if is_empty b then (ok none, b) else (read >>= λ r. choose r more) b

  -- What is chosen is to go on, or something that moves on without a panic.
  pub record Chooses : Type 0 where
    pub chosen :
        (r : R) (more : Parser (Option A)) (b after : ParseBuffer)
        → after.bytes ≡ b.bytes
        → b.pos < after.pos
        → after.pos ≤ length b.bytes
        → StepsAt b (more after)
        → StepsAt b (choose r more after)

  round-StepsAt :
      (more : Parser (Option A)) (b : ParseBuffer) (r : Result R × ParseBuffer)
      → Chooses
      → Advances 1 b r
      → ((after : ParseBuffer)
          → after.bytes ≡ b.bytes
          → b.pos < after.pos
          → after.pos ≤ length b.bytes
          → StepsAt after (more after))
      → StepsAt b (and_then r (λ r. choose r more))
  round-StepsAt more b (ok r, after) c h onward =
      c.chosen r more b after h.0 (omega (arith, h.1)) h.2 (
        StepsAt-onward b after (more after) h.0 (omega (arith, h.1))
          (onward after h.0 (omega (arith, h.1)) h.2))
  round-StepsAt more b (err e, after) c h onward = tt
  round-StepsAt more b (panic, after) c h onward = h

  while_more-StepsAt :
      (fuel : ℕ) (b : ParseBuffer)
      → Forward read 1
      → Chooses
      → IsValid b
      → length b.bytes - b.pos < fuel
      → StepsAt b (while_more fuel b)
  unfolding while_more
  while_more-StepsAt zero b f c v h = absurd (omega arith)
  while_more-StepsAt (suc fuel) b f c v h = elim (Bool-cases (is_empty b)) [
    | inl done ↦ rw done tt
    | inr more ↦ rw more (
        round-StepsAt (while_more fuel) b (read b) c (f.advances b v) λ after same onward within.
          while_more-StepsAt fuel after f c
            (record {
              within = omega (arith, ap length same);
              small = omega (arith, v.small, ap length same);
            })
            (omega (arith, ap length same)))
  ]

  pub Steps-while_more : Forward read 1 → Chooses → Steps (λ b. while_more (suc (length b.bytes)) b)
  Steps-while_more f c = record {
    steps = λ b v. while_more-StepsAt (suc (length b.bytes)) b f c v (omega arith);
  }
