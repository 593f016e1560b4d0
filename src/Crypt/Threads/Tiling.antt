-- ===== src/Crypt/Threads/Tiling.antt =====
-- What the threads need of the fragments, and that the split of my_encrypt.c provides it.
use sistemas_operativos.Prelude.{ℕ, ◌^◌, ◌≤◌, ◌<◌, ◌≢◌, ◌⊎◌, inl, inr, List, arith, dec_lt}
use sistemas_operativos.Crypt.Fragment.{DataFragment, fragment_of}
use sistemas_operativos.Crypt.Partition.{fragment-Lies, end_idx-le-start_idx, owner}

pub record Tiled (f : ℕ → DataFragment) (thread_count size : ℕ) : Type 0 where
  pub ordered : (t : ℕ) → t < thread_count → (f t).start_idx ≤ (f t).end_idx
  pub inside : (t : ℕ) → t < thread_count → (f t).end_idx ≤ size
  pub apart :
      (t u : ℕ)
      → t < thread_count
      → u < thread_count
      → t ≢ u
      → ((f t).end_idx ≤ (f u).start_idx) ⊎ ((f u).end_idx ≤ (f t).start_idx)
  pub owned :
      (j : ℕ)
      → j < size
      → (t : ℕ) × (t < thread_count) × ((f t).start_idx ≤ j) × (j < (f t).end_idx)

module _ (key : List ℕ) (key_length size thread_count : ℕ) where
  apart_lem :
      (t u : ℕ)
      → size < 2 ^ 64
      → t < thread_count
      → u < thread_count
      → t ≢ u
      → ((fragment_of key key_length size thread_count t).end_idx
          ≤ (fragment_of key key_length size thread_count u).start_idx)
        ⊎ ((fragment_of key key_length size thread_count u).end_idx
            ≤ (fragment_of key key_length size thread_count t).start_idx)
  apart_lem t u small ht hu ne = elim (dec_lt t u) [
    | yes before ↦ inl (end_idx-le-start_idx key key_length size thread_count t u small before hu)
    | no after ↦
        inr (end_idx-le-start_idx key key_length size thread_count u t small (omega arith) ht)
  ]

  -- The fragments lie in the buffer, do not overlap and leave no byte out.
  pub fragment_of-Tiled :
      size < 2 ^ 64
      → 0 < thread_count
      → Tiled (fragment_of key key_length size thread_count) thread_count size
  fragment_of-Tiled small pos = record {
    ordered = λ t h. (fragment-Lies key key_length size thread_count t small h).ordered;
    inside = λ t h. (fragment-Lies key key_length size thread_count t small h).inside;
    apart = λ t u ht hu ne. apart_lem t u small ht hu ne;
    owned = λ j h.
        let (t, o) = owner key key_length size thread_count j small pos h in
        (t, o.runs, o.from_start, o.before_end);
  }
