-- ===== src/CompressedBits/Editing/Edits.antt =====
-- tf/compressedBits.h: `ResizeKeepContents`, `Append`, `ShiftRight` and `ShiftLeft` together.
use pxr_tf.Base.{ℕ, ◌+◌, ◌^◌, ◌<◌, Bool}
use pxr_tf.CompressedBits.Defs.{CompressedBits, IsValid}
use pxr_tf.CompressedBits.Editing.{resize_keep_contents, append, shift_right, shift_left}
use pxr_tf.CompressedBits.Editing.Resize.{Yields, kept, resize-Yields}
use pxr_tf.CompressedBits.Editing.Append.{extended, append-Yields}
use pxr_tf.CompressedBits.Editing.ShiftRight.{right_shifted, shift_right-Yields}
use pxr_tf.CompressedBits.Editing.ShiftLeft.{left_shifted, shift_left-Yields}

-- For a valid array, `ResizeKeepContents` to a size below 2 ^ 32 gives a valid array of that size that
-- keeps the bits that fit and has the new bits unset; `Append`, where the new size is below 2 ^ 32,
-- gives a valid array with the new bits behind the old ones; `ShiftRight`, where size and shift are
-- below 2 ^ 32 together, gives one of the same size whose bits have moved up behind zeros; and
-- `ShiftLeft` by less than 2 ^ 32 gives one of the same size whose bits have moved down, with zeros at
-- the end.
pub edits-Yields :
    (c : CompressedBits) (num more : ℕ) (value : Bool) (up down : ℕ)
    → IsValid c
    → num < 2 ^ 32
    → c.num + more < 2 ^ 32
    → c.num + up < 2 ^ 32
    → down < 2 ^ 32
    → Yields num (kept c num) (resize_keep_contents c num)
      × Yields (c.num + more) (extended c more value) (append c more value)
      × Yields c.num (right_shifted c up) (shift_right c up)
      × Yields c.num (left_shifted c down) (shift_left c down)
edits-Yields c num more value up down v resized appended right left = (
  resize-Yields c v num resized,
  append-Yields c more value v appended,
  shift_right-Yields c up v right,
  shift_left-Yields c down v left,
)
