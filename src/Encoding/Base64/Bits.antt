-- ===== src/Encoding/Base64/Bits.antt =====
-- A disjunction of bits that do not overlap is a sum: checked for the widths that base64 uses.
use Prim.Native.Nat.{bit_or}
use agent_runner_opencode.Prelude.{
  eqb, ℕ, zero, suc, ◌+◌, ◌*◌, ◌<◌, ◌≡◌, refl, Bool, true, ◌&&◌, arith,
}

holds_below : (ℕ → Bool) → ℕ → Bool
holds_below test zero = true
holds_below test (suc k) = holds_below test k && test k

-- A test that holds below a bound holds at each number below it.
holds_below-at :
    (k : ℕ) (test : ℕ → Bool) (bound : ℕ)
    → k < bound
    → holds_below test bound ≡ true
    → test k ≡ true
unfolding holds_below
holds_below-at k test zero below h = absurd (omega arith)
holds_below-at k test (suc bound) below h = ground (arith, holds_below-at k test bound)

-- High parts below `m` times `w`, low parts below `w`.
disjoint_table : ℕ → ℕ → Bool
unfolding holds_below
disjoint_table m w =
    holds_below (λ hi. holds_below (λ lo. eqb (bit_or (hi * w) lo) (hi * w + lo)) w) m

disjoint_sound :
    (m w hi lo : ℕ) → disjoint_table m w ≡ true → hi < m → lo < w → bit_or (hi * w) lo ≡ hi * w + lo
unfolding disjoint_table
disjoint_sound m w hi lo h p q =
    let row : holds_below (λ lo. eqb (bit_or (hi * w) lo) (hi * w + lo)) w ≡ true =
      holds_below-at hi _ m p h in
    let sum : eqb (bit_or (hi * w) lo) (hi * w + lo) ≡ true = holds_below-at lo _ w q row in
    ground (arith, sum)

pub or-shift_2 : (hi lo : ℕ) → hi < 64 → lo < 4 → bit_or (hi * 4) lo ≡ hi * 4 + lo
unfolding disjoint_table
or-shift_2 hi lo = disjoint_sound 64 4 hi lo refl

pub or-shift_4 : (hi lo : ℕ) → hi < 16 → lo < 16 → bit_or (hi * 16) lo ≡ hi * 16 + lo
unfolding disjoint_table
or-shift_4 hi lo = disjoint_sound 16 16 hi lo refl

pub or-shift_6 : (hi lo : ℕ) → hi < 4 → lo < 64 → bit_or (hi * 64) lo ≡ hi * 64 + lo
unfolding disjoint_table
or-shift_6 hi lo = disjoint_sound 4 64 hi lo refl
