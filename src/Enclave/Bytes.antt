-- ===== src/Enclave/Bytes.antt =====
-- EnclaveUtils.h: bitsetToUint8Array and uint8ArrayToBitset, for a bitset of 8 * n bits.
use veil_db.Base.{
  ℕ, zero, suc, ◌+◌, ◌-◌, ◌*◌, ◌/◌, ◌%◌, ◌^◌, ◌<◌, ◌≤◌, ◌≡◌, refl, ap, List, [], ◌∷◌, length,
  get_elem?, Option, none, some, Bool, false, ltb, ◌==◌, if◌then◌else◌, arith, fun_ext, Bool-cases,
  inl, inr, ◌∙◌, ltb→lt,
}
use veil_db.Enclave.Bitset.{Bitset}

abbrev bit : Bool → ℕ
bit b = if b then 1 else 0

-- `array[i]`, an `or` of eight bits in eight places.
byte_of : Bitset → ℕ → ℕ
byte_of bm i =
    bit (bm (i * 8 + 0)) * 128
    + bit (bm (i * 8 + 1)) * 64
    + bit (bm (i * 8 + 2)) * 32
    + bit (bm (i * 8 + 3)) * 16
    + bit (bm (i * 8 + 4)) * 8
    + bit (bm (i * 8 + 5)) * 4
    + bit (bm (i * 8 + 6)) * 2
    + bit (bm (i * 8 + 7))

bytes_from : ℕ → ℕ → Bitset → List ℕ
bytes_from zero i bm = []
bytes_from (suc n) i bm = byte_of bm i ∷ bytes_from n (i + 1) bm

unfoldable pub bitset_to_bytes : ℕ → Bitset → List ℕ
unfolding bytes_from byte_of
bitset_to_bytes n bm = bytes_from n 0 bm

abbrev byte_at : Option ℕ → ℕ
byte_at none = 0
byte_at (some b) = b

-- `bits[i * 8 + j] = (array[i] >> (7 - j)) & 1;` for every i below n and j below 8.
unfoldable pub bytes_to_bitset : ℕ → List ℕ → Bitset
bytes_to_bitset n array k =
    if ltb k (8 * n) then byte_at (get_elem? array (k / 8)) / 2 ^ (7 - k % 8) % 2 == 1 else false

byte_bit : (bm : Bitset) (i j : ℕ) → j < 8 → (byte_of bm i / 2 ^ (7 - j) % 2 == 1) ≡ bm (i * 8 + j)
unfolding byte_of
byte_bit bm i zero h = ground arith
byte_bit bm i (suc zero) h = ground arith
byte_bit bm i (suc (suc zero)) h = ground arith
byte_bit bm i (suc (suc (suc zero))) h = ground arith
byte_bit bm i (suc (suc (suc (suc zero)))) h = ground arith
byte_bit bm i (suc (suc (suc (suc (suc zero))))) h = ground arith
byte_bit bm i (suc (suc (suc (suc (suc (suc zero)))))) h = ground arith
byte_bit bm i (suc (suc (suc (suc (suc (suc (suc zero))))))) h = ground arith
byte_bit bm i (suc (suc (suc (suc (suc (suc (suc (suc j)))))))) h = absurd (omega arith)

get_elem?-bytes_from :
    (n i m : ℕ) (bm : Bitset) → m < n → get_elem? (bytes_from n i bm) m ≡ some (byte_of bm (i + m))
unfolding bytes_from
get_elem?-bytes_from zero i m bm h = absurd (omega arith)
get_elem?-bytes_from (suc n) i zero bm h = ap (λ (t : ℕ). some (byte_of bm t)) (omega arith)
get_elem?-bytes_from (suc n) i (suc m) bm h =
    get_elem?-bytes_from n (i + 1) m bm (omega arith)
    ∙ ap (λ (t : ℕ). some (byte_of bm t)) (omega arith)

length-bytes_from : (n i : ℕ) (bm : Bitset) → length (bytes_from n i bm) ≡ n
unfolding bytes_from
length-bytes_from zero i bm = refl
length-bytes_from (suc n) i bm = ap suc (length-bytes_from n (i + 1) bm)

pub length-bitset_to_bytes : (n : ℕ) (bm : Bitset) → length (bitset_to_bytes n bm) ≡ n
unfolding bitset_to_bytes
length-bitset_to_bytes n bm = length-bytes_from n 0 bm

byte_of-empty :
    (bm : Bitset) (i : ℕ) → ((j : ℕ) → j < 8 → bm (i * 8 + j) ≡ false) → byte_of bm i ≡ 0
unfolding byte_of
byte_of-empty bm i h =
    rw
      (
        h 0 (omega arith),
        h 1 (omega arith),
        h 2 (omega arith),
        h 3 (omega arith),
        h 4 (omega arith),
        h 5 (omega arith),
        h 6 (omega arith),
        h 7 (omega arith),
      )
      refl

-- Without a bit among the first 32, the first four bytes are zero.
pub bitset_to_bytes-empty :
    (n : ℕ) (bm : Bitset)
    → 4 ≤ n
    → ((k : ℕ) → k < 32 → bm k ≡ false)
    → (rest : List ℕ) × (bitset_to_bytes n bm ≡ 0 ∷ 0 ∷ 0 ∷ 0 ∷ rest)
unfolding bitset_to_bytes bytes_from
bitset_to_bytes-empty zero bm h k = absurd (omega (arith, h))
bitset_to_bytes-empty (suc zero) bm h k = absurd (omega (arith, h))
bitset_to_bytes-empty (suc (suc zero)) bm h k = absurd (omega (arith, h))
bitset_to_bytes-empty (suc (suc (suc zero))) bm h k = absurd (omega (arith, h))
bitset_to_bytes-empty (suc (suc (suc (suc n)))) bm h k =
    let zero_at : (i : ℕ) → i < 4 → byte_of bm i ≡ 0 =
      λ i small. byte_of-empty bm i (λ j few. k (i * 8 + j) (omega (arith, small, few))) in
    (
      bytes_from n 4 bm,
      rw
          (
            zero_at 0 (omega arith),
            zero_at 1 (omega arith),
            zero_at 2 (omega arith),
            zero_at 3 (omega arith),
          )
          refl,
    )

-- The bits that the bytes hold come back, and every other bit is off.
pub bytes_to_bitset-bitset_to_bytes :
    (n : ℕ) (bm : Bitset) (k : ℕ)
    → bytes_to_bitset n (bitset_to_bytes n bm) k ≡ (if ltb k (8 * n) then bm k else false)
bytes_to_bitset-bitset_to_bytes n bm k = elim (Bool-cases (ltb k (8 * n))) [
  | inl e ↦
      let h = ltb→lt k (8 * n) e in
      let start : 0 + k / 8 ≡ k / 8 = omega arith in
      let place : k / 8 * 8 + k % 8 ≡ k = omega arith in
      unfold bytes_to_bitset bitset_to_bytes in
      rw (e, get_elem?-bytes_from n 0 (k / 8) bm (omega arith), start)
        (byte_bit bm (k / 8) (k % 8) (omega arith) ∙ ap bm place)
  | inr e ↦ unfold bytes_to_bitset in rw e
]

-- A bitset of 8 * n bits: off from there on.
abbrev pub IsBitset : ℕ → Bitset → Type 0
IsBitset n bm = (k : ℕ) → ltb k (8 * n) ≡ false → bm k ≡ false

pub bytes_to_bitset-IsBitset :
    (n : ℕ) (bm : Bitset) → IsBitset n bm → bytes_to_bitset n (bitset_to_bytes n bm) ≡ bm
bytes_to_bitset-IsBitset n bm h =
    fun_ext λ k. bytes_to_bitset-bitset_to_bytes n bm k ∙ ground (arith, h k)
