-- ===== src/Kaapi/HashMap/Hash.antt =====
-- The hash functions of kaapi/kaapi_hashmap.h and kaapi/kaapi_hashmap.c. A word of 64 bits is a number
-- below 2 ^ 64; the conversion to `uint32_t` keeps the remainder modulo 2 ^ 32.
use xkblas.Base.{ℕ, ◌+◌, ◌*◌, ◌/◌, ◌%◌, ◌^◌, List, [], ◌∷◌, ◌==◌, if◌then◌else◌, bit_and}
use Prim.Native.Nat.{bit_xor}

-- `v ^= (v >> n)`
abbrev pub fold_shift : ℕ → ℕ → ℕ
fold_shift n v = bit_xor v (v / 2 ^ n)

abbrev pub fold_bytes : ℕ → ℕ
fold_bytes v = fold_shift 8 (fold_shift 16 (fold_shift 32 v))

-- `if (v & bit) v ^= mask`
abbrev pub reduce_bit : ℕ → ℕ → ℕ → ℕ
reduce_bit bit mask v = if bit_and v bit == 0 then v else bit_xor v mask

unfoldable pub kaapi_hash_ulong : ℕ → ℕ
kaapi_hash_ulong v = fold_shift 8 (fold_shift 17 (fold_shift 32 v)) % 2 ^ 32

unfoldable pub kaapi_hash_ulong7 : ℕ → ℕ
kaapi_hash_ulong7 v = bit_and (reduce_bit 0x80 0x09 (fold_bytes v)) 0x7f

unfoldable pub kaapi_hash_ulong6 : ℕ → ℕ
kaapi_hash_ulong6 v = bit_and (reduce_bit 0x80 0x06 (reduce_bit 0x40 0x03 (fold_bytes v))) 0x3f

unfoldable pub kaapi_hash_ulong5 : ℕ → ℕ
kaapi_hash_ulong5 v =
    bit_and (reduce_bit 0x80 0x14 (reduce_bit 0x40 0x0a (reduce_bit 0x20 0x05 (fold_bytes v)))) 0x1f

-- The loop of kaapi_hash_value_len on the characters, each converted to `uint32_t`.
unfoldable pub hash_chars : ℕ → List ℕ → ℕ
hash_chars h [] = h
hash_chars h (c ∷ s) =
    let h1 = (h + c) % 2 ^ 32 in
    let h2 = (h1 + h1 * 2 ^ 10) % 2 ^ 32 in hash_chars (fold_shift 6 h2) s

unfoldable pub kaapi_hash_value_len : List ℕ → ℕ
kaapi_hash_value_len s =
    let h1 = hash_chars 0 s in
    let h2 = (h1 + h1 * 2 ^ 3) % 2 ^ 32 in let h3 = fold_shift 11 h2 in (h3 + h3 * 2 ^ 15) % 2 ^ 32

unfoldable pub kaapi_hash_value : List ℕ → ℕ
kaapi_hash_value [] = 0
kaapi_hash_value (c ∷ s) = kaapi_hash_value_len (c ∷ s)

-- The word of the bit that stands for a hash value in a bit set, and the bit in its word.
unfoldable pub key_to_mask : ℕ → ℕ
key_to_mask k = 2 ^ (k % 64)

unfoldable pub key_to_index : ℕ → ℕ
key_to_index k = k / 64
