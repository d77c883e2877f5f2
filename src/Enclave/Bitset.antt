-- ===== src/Enclave/Bitset.antt =====
-- std::bitset<total_file_no>, and its conversion to and from bytes (EnclaveUtils.h).
-- A bitset is the function from positions to bits, and is only asked below `total_file_no`.
use veil_db.Base.{ℕ, ◌/◌, Bool, false, not, ◌&&◌, ◌||◌, ◌==◌, if◌then◌else◌}

abbrev pub Bitset : Type 0
Bitset = ℕ → Bool

-- `total_file_no`, 10000; it stays a name, so that no proof counts to it.
unfoldable pub total_file_no : ℕ
total_file_no = 10000

-- A bitset of no bits, `std::bitset<id_max> bm;`.
abbrev pub no_bits : Bitset
no_bits i = false

abbrev pub bit_and : Bitset → Bitset → Bitset
bit_and a b i = a i && b i

abbrev pub bit_or : Bitset → Bitset → Bitset
bit_or a b i = a i || b i

-- `all & ~a`
abbrev pub bit_without : Bitset → Bitset → Bitset
bit_without all a i = all i && not (a i)

-- `bm[j] = v;`
abbrev pub set_bit : Bitset → ℕ → Bool → Bitset
set_bit bm j v i = if i == j then v else bm i

-- The bytes of a stored bitmap, `id_max / 8`.
unfoldable pub bitmap_bytes : ℕ
unfolding total_file_no
bitmap_bytes = total_file_no / 8
