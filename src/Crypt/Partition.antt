-- ===== src/Crypt/Partition.antt =====
-- The fragments of my_encrypt.c tile the buffer: they lie end to end, and no byte is left out.
use sistemas_operativos.Prelude.{ℕ, suc, ◌-◌, ◌*◌, ◌/◌, ◌^◌, ◌≤◌, ◌<◌, ◌≡◌, List, arith, dec_lt}
use sistemas_operativos.Crypt.Fragment.{DataFragment, fragment_of}
use native.Mathlib.Nat.{
  mod-eq_of_lt, div-add-mod, mul-le-mul_right, suc-mul, mod-lt, div-add-mod', mul-le-mul_left,
  div-lt_iff_lt-mul,
}
use native.Mathlib.Numerals.{add-one}

module _ (key : List ℕ) (key_length file_size thread_count : ℕ) where
  abbrev pub fragment : ℕ → DataFragment
  fragment i = fragment_of key key_length file_size thread_count i

  abbrev pub share : ℕ
  share = file_size / thread_count

  -- No product of the split exceeds the size of the file, so none wraps.
  mul-share-le : (i : ℕ) → i ≤ thread_count → i * share ≤ file_size
  mul-share-le i h =
      omega
        (arith, div-add-mod file_size thread_count, mul-le-mul_right (file_size / thread_count) h)

  pub start_idx_lem :
      (i : ℕ) → file_size < 2 ^ 64 → i < thread_count → (fragment i).start_idx ≡ i * share
  unfolding fragment_of
  start_idx_lem i small h = mod-eq_of_lt (omega (arith, mul-share-le i (omega arith)))

  pub end_idx_lem :
      (i : ℕ) → file_size < 2 ^ 64 → suc i < thread_count → (fragment i).end_idx ≡ suc i * share
  unfolding fragment_of
  end_idx_lem i small h = ground (
    arith,
    add-one i,
    mul-share-le (suc i) (omega arith),
    mod-eq_of_lt {n = suc i * (file_size / thread_count)} {m = 2 ^ 64},
  )

  pub end_idx_last :
      (i : ℕ) → file_size < 2 ^ 64 → suc i ≡ thread_count → (fragment i).end_idx ≡ file_size
  unfolding fragment_of
  end_idx_last i small h =
      ground (arith, div-add-mod file_size thread_count, mod-eq_of_lt {n = file_size} {m = 2 ^ 64})

  -- What the threads rely on: the fragment of thread `i` lies in the buffer.
  pub record Lies (i : ℕ) : Type 0 where
    pub ordered : (fragment i).start_idx ≤ (fragment i).end_idx
    pub inside : (fragment i).end_idx ≤ file_size

  pub fragment-Lies : (i : ℕ) → file_size < 2 ^ 64 → i < thread_count → Lies i
  fragment-Lies i small h = elim (dec_lt (suc i) thread_count) [
    | yes more ↦ omega (
      arith,
      start_idx_lem i small h,
      end_idx_lem i small more,
      suc-mul i share,
      mul-share-le (suc i) (omega arith),
    )
    | no last ↦ omega (
      arith,
      start_idx_lem i small h,
      end_idx_last i small (omega arith),
      mul-share-le i (omega arith),
    )
  ]

  -- Each fragment ends where the next begins.
  pub end_idx-start_idx :
      (i : ℕ)
      → file_size < 2 ^ 64
      → suc i < thread_count
      → (fragment i).end_idx ≡ (fragment (suc i)).start_idx
  end_idx-start_idx i small h = omega (arith, end_idx_lem i small h, start_idx_lem (suc i) small h)

  -- The fragment of an earlier thread ends before that of a later one begins.
  pub end_idx-le-start_idx :
      (i j : ℕ)
      → file_size < 2 ^ 64
      → i < j
      → j < thread_count
      → (fragment i).end_idx ≤ (fragment j).start_idx
  end_idx-le-start_idx i j small h k =
      omega (
        arith,
        end_idx_lem i small (omega arith),
        start_idx_lem j small k,
        mul-le-mul_right share h,
      )

  -- Byte `j` belongs to the fragment of thread `i`.
  pub record Owns (i j : ℕ) : Type 0 where
    pub runs : i < thread_count
    pub from_start : (fragment i).start_idx ≤ j
    pub before_end : j < (fragment i).end_idx

  Owns-div :
      (j : ℕ) → file_size < 2 ^ 64 → j < thread_count * share → 0 < share → Owns (j / share) j
  Owns-div j small h pos = elim (dec_lt (suc (j / share)) thread_count) [
    | yes more ↦
        omega (arith, runs, low, high, start_idx_lem _ small runs, end_idx_lem _ small more)
    | no last ↦ omega (
      arith,
      runs,
      low,
      mul-share-le thread_count (omega arith),
      start_idx_lem _ small runs,
      end_idx_last (j / share) small (omega (arith, runs)),
    )
  ]
    where
      runs : j / share < thread_count
      runs = (div-lt_iff_lt-mul pos).1 h

      low : j / share * share ≤ j
      low = omega (arith, div-add-mod' j share)

      high : j < suc (j / share) * share
      high = omega (arith, div-add-mod' j share, mod-lt j pos, suc-mul (j / share) share)

  Owns-last :
      (i j : ℕ)
      → file_size < 2 ^ 64
      → suc i ≡ thread_count
      → j < file_size
      → thread_count * share ≤ j
      → Owns i j
  Owns-last i j small last h rest = omega (
    arith,
    start_idx_lem i small (omega arith),
    end_idx_last i small last,
    mul-le-mul_right {m = i} {n = thread_count} share (omega arith),
  )

  share-pos : (j : ℕ) → j < thread_count * share → 0 < share
  share-pos j h = elim (dec_lt 0 share) [
    | yes pos ↦ pos
    | no zero_share ↦
        let e : share ≡ 0 = omega arith in
        absurd (omega (arith, mul-le-mul_left {m = share} {n = 0} thread_count (omega arith)))
  ]

  -- The thread whose fragment holds a byte: the last one also has the bytes left over.
  pub owner : (j : ℕ) → file_size < 2 ^ 64 → 0 < thread_count → j < file_size → (i : ℕ) × Owns i j
  owner j small pos h = elim (dec_lt j (thread_count * share)) [
    | yes inner ↦ (j / share, Owns-div j small inner (share-pos j inner))
    | no rest ↦
        (thread_count - 1, Owns-last (thread_count - 1) j small (omega arith) h (omega arith))
  ]
