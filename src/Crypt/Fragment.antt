-- ===== src/Crypt/Fragment.antt =====
-- `DataFragment` of my_encrypt.c, and the split of the buffer among the threads. Every fragment
-- points to the same `file_buffer`, so the buffer is state of its own and no field here. The block
-- behind `encryption_key` is never written, so its field holds the block's bytes.
use sistemas_operativos.Prelude.{ℕ, ◌+◌, ◌-◌, ◌*◌, ◌/◌, ◌%◌, ◌^◌, List, ◌==◌, if◌then◌else◌}

-- A number stored in a `size_t` of 64 bits.
abbrev pub size_t : ℕ → ℕ
size_t n = n % 2 ^ 64

pub record DataFragment : Type 0 where
  pub data_size : ℕ
  pub encryption_key : List ℕ
  pub key_length : ℕ
  pub start_idx : ℕ
  pub end_idx : ℕ

-- The body of the loop that fills `fragment_list[i]`.
unfoldable pub fragment_of : (key : List ℕ) (key_length file_size thread_count i : ℕ) → DataFragment
fragment_of key key_length file_size thread_count i =
    let fragment_size = file_size / thread_count in
    let extra_bytes = file_size % thread_count in
    record {
      data_size = file_size;
      encryption_key = key;
      key_length = key_length;
      start_idx = size_t (i * fragment_size);
      end_idx =
          if i == thread_count - 1
          then size_t ((i + 1) * fragment_size + extra_bytes)
          else size_t ((i + 1) * fragment_size);
    }
