-- ===== src/Streams.antt =====
-- What the program reads through std::istringstream besides single numbers and words: a number that
-- counts bytes, one byte that is skipped, and that many bytes, taken as a C string. The code also
-- writes the final NUL of its buffer one byte behind the buffer's end. Whether the compiler leaves a
-- byte there that can be written without harm is an argument, `spare_byte`.
pub mod Counted
use twitter_clone.Prelude.{
  ℕ, Bool, ◌&&◌, Option, none, some, leb, if◌then◌else◌, length, take, drop, Bytes, ℤ, pos, negsuc,
}
use twitter_clone.Numbers.{scan_int}
use twitter_clone.Packet.{c_str}

infixl 5 ◌>>=◌
abbrev pub ◌>>=◌ {ℓ κ} : {A : Type ℓ} {B : Type κ} → Option A → (A → Option B) → Option B
none >>= f = none
some a >>= f = f a

-- `read` into a buffer of the given size, and the C string in it; none where there is no byte behind
-- the buffer, where the stream is shorter, so that a part of the buffer is not set, and where the size
-- is negative.
unfoldable pub read_chars : Bool → ℤ → Bytes → Option (Bytes × Bytes)
read_chars spare_byte (pos n) s =
    if spare_byte && leb n (length s) then some (c_str (take n s), drop n s) else none
read_chars spare_byte (negsuc n) s = none

-- `stream >> length`, `ignore(1)` and `read`; none where no number is there to be read, so that
-- the length is not set.
unfoldable pub read_counted : Bool → Bytes → Option (Bytes × Bytes)
read_counted spare_byte s = do (n, s₁) ← scan_int s; read_chars spare_byte n (drop 1 s₁)
