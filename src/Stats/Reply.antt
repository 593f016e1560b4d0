-- ===== src/Stats/Reply.antt =====
-- What the user finds in the buffer after one of the calls.
use sistemas_operativos.Prelude.{
  ℕ, ◌<◌, ◌≡◌, refl, List, ◌++◌, true, Option, none, some, length, drop,
}
use sistemas_operativos.Prelude.Int.{ℤ, pos}
use sistemas_operativos.Kernel.Machine.{Machine}
use sistemas_operativos.Text.{Directive, format, snprintf_into, c_string}
use sistemas_operativos.Text.Width.{width, no_null, c_string-snprintf_into}
use sistemas_operativos.Stats.{Counters, reply}

-- A process of the user with one buffer, which the kernel writes by `copy_to_user`. `Served` says
-- that no copy to it fails: the bytes go to the front of the buffer and the rest stays.
pub record UserBuffer (K : Counters) : Type 0 where
  pub buffer : K.UserPtr
  pub content : K.World → List ℕ
  pub memset : ℕ → K.World → K.World

pub record Served (K : Counters) (U : UserBuffer K) : Type 0 where
  pub stack : (n : ℕ) (w : K.World) → length (K.stack n w) ≡ n
  pub copied : (bytes : List ℕ) (w : K.World) → (K.copy_to_user U.buffer bytes w).0 ≡ 0
  pub content-copied :
      (bytes : List ℕ) (w : K.World)
      → U.content (K.copy_to_user U.buffer bytes w).1 ≡ bytes ++ drop (length bytes) (U.content w)

-- The call returns 0 and the string in the user's buffer is the text.
abbrev pub Sends : (K : Counters) → UserBuffer K → List ℕ → Option (ℤ × Machine K.World) → Type 0
Sends K U text none = ⊥
Sends K U text (some (r, s)) = (r ≡ pos 0) × (c_string (U.content s.world) ≡ text)

module _ (K : Counters) (U : UserBuffer K) (q : Served K U) where
  pub reply-Sends :
      (size : ℕ) (d : List Directive) (values : List ℕ) (s : Machine K.World)
      → width d < size
      → no_null d ≡ true
      → Sends K U (format d values) (reply K size d values U.buffer s)
  unfolding reply
  reply-Sends size d values s fits h =
      rw (q.copied (snprintf_into (K.stack size s.world) d values) s.world) (
        refl,
        rw (q.content-copied (snprintf_into (K.stack size s.world) d values) s.world) (
            c_string-snprintf_into (K.stack size s.world) d values
              (drop (length (snprintf_into (K.stack size s.world) d values)) (U.content s.world))
              (rw (q.stack size s.world) fits) h),
      )
