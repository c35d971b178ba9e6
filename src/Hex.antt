-- ===== src/Hex.antt =====
-- hex.c: bytes to hexadecimal text and back. A text is the list of its character codes. The
-- buffers that the functions write into are returned; `none` is a failed `from_hex`, or `abort`.
pub mod RoundTrip
use pettycoin.Base.{
  ℕ, ◌+◌, ◌-◌, ◌*◌, Bool, ◌&&◌, Option, none, some, List, [], ◌∷◌, ltb, leb, ◌==◌, if◌then◌else◌,
  Bytes, bit_or, bit_and, shl, shr, u8, length, ◌>>=◌,
}

unfoldable pub char_to_hex : ℕ → Option ℕ
char_to_hex c =
    if leb b'0' c && leb c b'9'
    then some (c - b'0')
    else if leb b'a' c && leb c b'f'
    then some (c - b'a' + 10)
    else if leb b'A' c && leb c b'F'
    then some (c - b'A' + 10)
    else none

-- One round of the loop of `from_hex`, before what `rest` makes of the other characters.
store_byte : Option ℕ → Option ℕ → ℕ → Option Bytes → Option Bytes
store_byte first second bufsize rest = do
  v1 ← first
  v2 ← second
  if bufsize == 0 then none else do p ← rest; some (u8 (bit_or (shl v1 4) v2) ∷ p)

-- `bufsize` bytes are wanted; an odd character at the end, or a buffer that is not filled, fails.
unfoldable pub from_hex : Bytes → ℕ → Option Bytes
unfolding store_byte
from_hex [] bufsize = if bufsize == 0 then some [] else none
from_hex (c ∷ []) bufsize = none
from_hex (c ∷ d ∷ str) bufsize =
    store_byte (char_to_hex c) (char_to_hex d) bufsize (from_hex str (bufsize - 1))

unfoldable pub hexchar : ℕ → Option ℕ
hexchar val =
    if ltb val 10 then some (b'0' + val) else if ltb val 16 then some (b'a' + val - 10) else none

-- The loop of `to_hex_direct`: what is written into `dest`, and the number of bytes used.
to_hex_loop : ℕ → Bytes → Option (Bytes × ℕ)
unfolding hexchar
to_hex_loop destlen [] = some (0 ∷ [], 0)
to_hex_loop destlen (c ∷ buf) = if ltb destlen 3 then some (0 ∷ [], 0) else do
  hi ← hexchar (shr c 4)
  lo ← hexchar (bit_and c 0xf)
  (dest, used) ← to_hex_loop (destlen - 2) buf
  some (hi ∷ lo ∷ dest, used + 1)

unfoldable pub to_hex_direct : ℕ → Bytes → Option (Bytes × ℕ)
unfolding to_hex_loop
to_hex_direct destlen buf = if ltb 0 destlen then to_hex_loop destlen buf else none

unfoldable pub to_hex : Bytes → Option Bytes
unfolding to_hex_direct
to_hex buf = do (hex, used) ← to_hex_direct (length buf * 2 + 1) buf; some hex
