-- ===== src/Crypt/Threads/Slice.antt =====
-- A fragment of which the bytes before `mid` are done and the others are as they were.
use sistemas_operativos.Prelude.{
  ℕ, ◌+◌, ◌≤◌, ◌<◌, ◌≡◌, ◌⊎◌, List, arith, get_or, set, length, get_or-set_self, get_or-set_ne,
}
use sistemas_operativos.Crypt.Fragment.{DataFragment}
use sistemas_operativos.Crypt.Worker.{xor_at}

pub record Slice (f : DataFragment) (file buffer : List ℕ) (lo mid hi : ℕ) : Type 0 where
  pub low : lo ≤ mid
  pub high : mid ≤ hi
  pub done : (j : ℕ) → lo ≤ j → j < mid → get_or buffer j 0 ≡ xor_at f j (get_or file j 0)
  pub left : (j : ℕ) → mid ≤ j → j < hi → get_or buffer j 0 ≡ get_or file j 0

module _ {f : DataFragment} {file buffer : List ℕ} {lo mid hi : ℕ} where
  -- The round of the loop at `mid`.
  pub Slice-write :
      (byte : ℕ)
      → Slice f file buffer lo mid hi
      → mid < hi
      → hi ≤ length buffer
      → byte ≡ get_or file mid 0
      → Slice f file (set buffer mid (xor_at f mid byte)) lo (mid + 1) hi
  Slice-write byte s more inside e = record {
    low = omega (arith, s.low);
    high = omega arith;
    done = λ j from before. ground (
      arith,
      s.done j from,
      get_or-set_self buffer mid (xor_at f mid byte) 0 (omega arith),
      get_or-set_ne buffer mid j (xor_at f mid byte) 0,
    );
    left = λ j from before.
        ground
          (arith, s.left j (omega arith) before, get_or-set_ne buffer mid j (xor_at f mid byte) 0);
  }

  -- A write elsewhere.
  pub Slice-write_elsewhere :
      (i byte : ℕ)
      → Slice f file buffer lo mid hi
      → (i < lo) ⊎ (hi ≤ i)
      → Slice f file (set buffer i byte) lo mid hi
  Slice-write_elsewhere i byte s away = record {
    low = s.low;
    high = s.high;
    done = λ j from before. ground (
      arith,
      s.low,
      s.high,
      s.done j from before,
      get_or-set_ne buffer i j byte 0 (omega (arith, s.high)),
    );
    left = λ j from before. ground (
      arith,
      s.low,
      s.high,
      s.left j from before,
      get_or-set_ne buffer i j byte 0 (omega (arith, s.low)),
    );
  }

  -- The loop is over.
  pub Slice-over : Slice f file buffer lo mid hi → hi ≤ mid → Slice f file buffer lo hi hi
  Slice-over s over = record {
    low = omega (arith, s.low);
    high = omega arith;
    done = λ j from before. s.done j from (omega arith);
    left = λ j from before. absurd (omega arith);
  }
