-- ===== src/Tests/Small.antt =====
-- A small index: "ab" is on the host, "cd" in the cache.
use veil_db.Base.{
  ℕ, ◌≡◌, refl, ap, sym, List, [], ◌∷◌, ◌++◌, length, drop, replicate, none, some, true, false,
  arith, same_text, same_text_iff, same_text_refl, Bool-cases, inr, ◌⊎◌, subst, ◌<◌, if◌then◌else◌,
  inl, length-append_bytes, ltb,
}
use veil_db.Base.Assoc.{find, keys}
use veil_db.Base.Decimal.{ends_plain}
use veil_db.Enclave.Bitset.{Bitset, no_bits, set_bit, bitmap_bytes, total_file_no}
use veil_db.Enclave.Bytes.{IsBitset}
use veil_db.Enclave.Sgx.{Sgx}
use veil_db.Enclave.Context.{Enclave, make_fresh_context, zero_key}
use veil_db.Enclave.Keywords.{bitmap_label, bitmap_key, encrypt_bitmap_cipher, is_some}
use veil_db.Enclave.Init.Labels.{IsKeyword, IsDummy, bitmap_label-Apart}
use veil_db.Enclave.Keywords.Index.{Apart, Indexes}
use veil_db.Host.Storage.{empty_edb}

-- A hash that keeps its text, and a cipher that puts 28 bytes before it.
abbrev pub toy : Sgx
toy = record {
  hash = λ key text. key ++ text;
  encrypt = λ key plain. replicate 28 0 ++ plain;
  decrypt = λ key cipher. drop 28 cipher;
  length-encrypt = λ key plain. length-append_bytes (replicate 28 0) plain;
  decrypt-encrypt = λ key plain. refl;
}

abbrev IsPlain : List ℕ → Type 0
IsPlain w = ends_plain w ≡ true

pub toy-free : (x y : List ℕ) → toy.hash zero_key x ≡ toy.hash zero_key y → x ≡ y
toy-free x y e = ap (drop 16) e

pub toy-apart : Apart toy zero_key IsKeyword IsDummy
toy-apart = bitmap_label-Apart toy zero_key toy-free

abbrev pub word_ab : List ℕ
word_ab = b'a' ∷ b'b' ∷ []

abbrev pub word_cd : List ℕ
word_cd = b'c' ∷ b'd' ∷ []

abbrev pub some_postings : List ℕ → Bitset
some_postings u =
    if same_text word_ab u
    then set_bit no_bits 3 true
    else if same_text word_cd u
    then set_bit no_bits 4 true
    else no_bits

abbrev pub some_state : Enclave
some_state = record {
  ctx = record (make_fresh_context 1) {
    ck = (word_cd, set_bit no_bits 4 true) ∷ [];
    kvs = (word_ab, 1) ∷ (word_cd, 1) ∷ [];
    words_kvs = word_ab ∷ word_cd ∷ [];
  };
  edb = record empty_edb {
    bitmaps =
        (
          bitmap_label toy zero_key word_ab 1,
          encrypt_bitmap_cipher toy (set_bit no_bits 3 true) (bitmap_key toy zero_key word_ab 1),
        )
        ∷ [];
  };
  random = λ i. i;
}

word_ab-IsPlain : IsPlain word_ab
unfolding ends_plain
word_ab-IsPlain = refl

word_cd-IsPlain : IsPlain word_cd
unfolding ends_plain
word_cd-IsPlain = refl

-- Neither starts with a `d`.
first : List ℕ → ℕ
first [] = 0
first (c ∷ cs) = c

pub word_ab-IsKeyword : IsKeyword word_ab
unfolding first
word_ab-IsKeyword = inl (word_ab-IsPlain, λ e. absurd (ground (arith, ap first e)))

pub word_cd-IsKeyword : IsKeyword word_cd
unfolding first
word_cd-IsKeyword = inl (word_cd-IsPlain, λ e. absurd (ground (arith, ap first e)))

pub word_ab-no_dummy : ¬ IsDummy word_ab
unfolding first
word_ab-no_dummy (d, e) = absurd (ground (arith, ap first e))

pub word_cd-no_dummy : ¬ IsDummy word_cd
unfolding first
word_cd-no_dummy (d, e) = absurd (ground (arith, ap first e))

one_bit : (i : ℕ) → i < 1000 → IsBitset bitmap_bytes (set_bit no_bits i true)
unfolding bitmap_bytes total_file_no
one_bit i h k e = ground arith

sealed_ab :
    (w : List ℕ) (v : ℕ)
    → w ≡ word_ab
    → v ≡ 1
    → find (bitmap_label toy zero_key w v) some_state.edb.bitmaps
      ≡ some (encrypt_bitmap_cipher toy (set_bit no_bits 3 true) (bitmap_key toy zero_key w v))
unfolding find
sealed_ab w v e f =
    let label = bitmap_label toy zero_key word_ab 1 in rw (e, f, same_text_refl label) refl

abbrev Case : List ℕ → Type 0
Case w =
    ((w ≡ word_ab) × (same_text word_ab w ≡ true) × (same_text word_cd w ≡ false))
    ⊎ ((w ≡ word_cd) × (same_text word_ab w ≡ false) × (same_text word_cd w ≡ true))
    ⊎ ((same_text word_ab w ≡ false) × (same_text word_cd w ≡ false))

cases : (w : List ℕ) → Case w
unfolding same_text
cases w = elim (Bool-cases (same_text word_ab w)) [
  | inl e ↦
      let same : word_ab ≡ w = (same_text_iff word_ab w).0 e in
      inl (sym same, e, subst (λ u. same_text word_cd u ≡ false) same refl)
  | inr e ↦ elim (Bool-cases (same_text word_cd w)) [
    | inl f ↦ inr (inl (sym ((same_text_iff word_cd w).0 f), e, f))
    | inr f ↦ inr (inr (e, f))
  ]
]

abbrev label_ab : List ℕ
label_ab = bitmap_label toy zero_key word_ab 1

pub some_state-Indexes :
    Indexes toy zero_key IsKeyword IsDummy toy-apart some_postings no_bits some_state
unfolding make_fresh_context find keys same_text
some_state-Indexes = record {
  occupied = refl;
  keyed = refl;
  cached = λ w bm f. elim (cases w) [
    | inl (same, a, c) ↦ ground (arith, f, a, c)
    | inr (inl (same, a, c)) ↦ ground (arith, f, a, c)
    | inr (inr (a, c)) ↦ ground (arith, f, a, c)
  ];
  versioned = λ w bm f. elim (cases w) [
    | inl (same, a, c) ↦ ground (arith, f, a, c)
    | inr (inl (same, a, c)) ↦ ground (arith, f, a, c)
    | inr (inr (a, c)) ↦ ground (arith, f, a, c)
  ];
  stored = λ w v f g. elim (cases w) [
    | inl (same, a, c) ↦ rw (a) (sealed_ab w v same (ground (arith, f, a, c)))
    | inr (inl (same, a, c)) ↦ ground (arith, g, a, c)
    | inr (inr (a, c)) ↦ ground (arith, f, a, c)
  ];
  absent = λ w f. elim (cases w) [
    | inl (same, a, c) ↦ ground (arith, f, a, c)
    | inr (inl (same, a, c)) ↦ ground (arith, f, a, c)
    | inr (inr (a, c)) ↦ ground (arith, f, a, c)
  ];
  clear = λ w f. elim (cases w) [
    | inl (same, a, c) ↦ subst IsKeyword (sym same) word_ab-IsKeyword
    | inr (inl (same, a, c)) ↦ subst IsKeyword (sym same) word_cd-IsKeyword
    | inr (inr (a, c)) ↦ ground (arith, f, a, c)
  ];
  blank = λ w (d, e). rw e refl;
  distinct = (tt, tt);
  sized = λ w. elim (cases w) [
    | inl (same, a, c) ↦ rw (a) (one_bit 3 (omega arith))
    | inr (inl (same, a, c)) ↦ rw (a, c) (one_bit 4 (omega arith))
    | inr (inr (a, c)) ↦ rw (a, c) (λ k e. refl)
  ];
}

-- "ab" on the host, and nothing in the cache.
abbrev pub host_state : Enclave
host_state = record some_state {
  ctx = record some_state.ctx { ck = []; kvs = (word_ab, 1) ∷ []; words_kvs = word_ab ∷ [] };
}

abbrev pub host_postings : List ℕ → Bitset
host_postings u = if same_text word_ab u then set_bit no_bits 3 true else no_bits

pub host_state-Indexes :
    Indexes toy zero_key IsKeyword IsDummy toy-apart host_postings no_bits host_state
unfolding make_fresh_context find keys same_text
host_state-Indexes = record {
  occupied = refl;
  keyed = refl;
  cached = λ w bm f. absurd (ground (arith, f));
  versioned = λ w bm f. absurd (ground (arith, f));
  stored = λ w v f g. elim (Bool-cases (same_text word_ab w)) [
    | inl e ↦ rw (e) (sealed_ab w v (sym ((same_text_iff word_ab w).0 e)) (ground (arith, f, e)))
    | inr e ↦ ground (arith, f, e)
  ];
  absent = λ w f. ground (arith, f);
  clear = λ w f. elim (Bool-cases (same_text word_ab w)) [
    | inl e ↦ subst IsKeyword ((same_text_iff word_ab w).0 e) word_ab-IsKeyword
    | inr e ↦ ground (arith, f, e)
  ];
  blank = λ w (d, e). rw e refl;
  distinct = tt;
  sized = λ w. elim (Bool-cases (same_text word_ab w)) [
    | inl e ↦ rw (e) (one_bit 3 (omega arith))
    | inr e ↦ rw (e) (λ k f. refl)
  ];
}

pub ab_known : find word_ab some_state.ctx.kvs ≡ some 1
unfolding find same_text
ab_known = refl

pub ab_uncached : find word_ab some_state.ctx.ck ≡ none
unfolding find same_text
ab_uncached = refl

pub cd_cached : is_some (find word_cd some_state.ctx.ck) ≡ true
unfolding find same_text
cd_cached = refl

pub room : ltb (length some_state.ctx.ck) some_state.ctx.ck_max ≡ true
unfolding make_fresh_context
room = refl

pub seven : 7 < total_file_no
unfolding total_file_no
seven = omega arith
