-- ===== src/Enclave/Keywords/Labels.antt =====
-- The labels under which bitmaps are stored: word, version and a 0, in one text.
use veil_db.Base.{ℕ, ◌++◌, ◌≡◌, ap, sym, ◌+◌, ◌<◌, List, [], ◌∷◌, true, append_assoc, ◌∙◌}
use veil_db.Base.Decimal.{to_string, to_string-teens, ends_plain, number_suffix-injective}
use veil_db.Enclave.Sgx.{Sgx}
use veil_db.Enclave.Keywords.{label_message, bitmap_label}

-- Where the hash has no collisions under the key, two words that end in no digit have a label in
-- common only if they are the same word, in the same version.
pub bitmap_label-injective :
    (sgx : Sgx) (key : List ℕ)
    → ((x y : List ℕ) → sgx.hash key x ≡ sgx.hash key y → x ≡ y)
    → (w u : List ℕ) (n m : ℕ) → ends_plain w ≡ true
    → ends_plain u ≡ true
    → bitmap_label sgx key w n ≡ bitmap_label sgx key u m
    → (w ≡ u) × (n ≡ m)
unfolding bitmap_label
bitmap_label-injective sgx key free w u n m hw hu e =
    number_suffix-injective w u n m hw hu (free (label_message w n) (label_message u m) e)

-- A word in version 10 + n and the word with a 1 behind it in version n, below 10, have the same
-- label, whatever the hash and the key: what is stored for one is overwritten by the other.
pub bitmap_label-collision :
    (sgx : Sgx) (key w : List ℕ) (n : ℕ)
    → n < 10
    → bitmap_label sgx key w (10 + n) ≡ bitmap_label sgx key (w ++ b'1' ∷ []) n
unfolding bitmap_label
bitmap_label-collision sgx key w n h = ap (sgx.hash key) (
    ap (λ d. w ++ (d ++ b'0' ∷ [])) (to_string-teens n h)
    ∙ sym (append_assoc w (b'1' ∷ []) (to_string n ++ b'0' ∷ [])))
