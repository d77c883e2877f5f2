-- ===== src/Enclave/Init/Labels.antt =====
-- The labels of keywords and of placeholders.
use mathlib.Core.List.{tail}
use veil_db.Base.{
  ℕ, ◌≡◌, ◌≢◌, refl, ap, sym, ◌∙◌, List, [], ◌∷◌, ◌++◌, true, arith, ◌⊎◌, inl, inr, append_assoc,
}
use veil_db.Base.Decimal.{
  to_string, ends_plain, AllDigits, AllDigits-append, to_string-AllDigits, plain-injective,
}
use veil_db.Enclave.Sgx.{Sgx}
use veil_db.Enclave.Keywords.{label_message, key_message, bitmap_label, bitmap_key}
use veil_db.Enclave.Keywords.Index.{Apart}
use veil_db.Enclave.Keywords.Labels.{bitmap_label-injective}
use veil_db.Enclave.Update.{dummy_word}

abbrev dummy_stem : List ℕ
dummy_stem = b'd' ∷ b'u' ∷ b'm' ∷ b'm' ∷ b'y' ∷ b'_' ∷ []

abbrev pub IsDummy : List ℕ → Type 0
IsDummy w = (d : ℕ) × (w ≡ dummy_word d)

-- A word that ends in no digit and is not "dummy_", or a placeholder.
abbrev pub IsKeyword : List ℕ → Type 0
IsKeyword w = ((ends_plain w ≡ true) × (w ≢ dummy_stem)) ⊎ IsDummy w

pub snoc-injective : (xs ys : List ℕ) (a b : ℕ) → xs ++ a ∷ [] ≡ ys ++ b ∷ [] → xs ≡ ys
snoc-injective [] [] a b h = refl
snoc-injective [] (y ∷ []) a b h = cc
snoc-injective [] (y ∷ z ∷ ys) a b h = cc
snoc-injective (x ∷ []) [] a b h = cc
snoc-injective (x ∷ z ∷ xs) [] a b h = cc
snoc-injective (x ∷ xs) (y ∷ ys) a b h =
    let rest : xs ≡ ys = snoc-injective xs ys a b (ap tail h) in cc

key_message-label_message :
    (w u : List ℕ) (n m : ℕ)
    → label_message w n ≡ label_message u m
    → key_message w n ≡ key_message u m
key_message-label_message w u n m e =
    let same : w ++ to_string n ≡ u ++ to_string m =
      snoc-injective (w ++ to_string n) (u ++ to_string m) b'0' b'0' (
        append_assoc w (to_string n) (b'0' ∷ [])
        ∙ e
        ∙ sym (append_assoc u (to_string m) (b'0' ∷ []))) in
    sym (append_assoc w (to_string n) (b'1' ∷ []))
    ∙ ap (λ t. t ++ b'1' ∷ []) same
    ∙ append_assoc u (to_string m) (b'1' ∷ [])

suffix-AllDigits : (n : ℕ) → AllDigits (to_string n ++ b'0' ∷ [])
suffix-AllDigits n =
    AllDigits-append (to_string n) (b'0' ∷ []) (to_string-AllDigits n) (ground arith)

-- A placeholder and another keyword never have the same message.
mixed-apart :
    (d : ℕ) (u : List ℕ) (n m : ℕ)
    → ends_plain u ≡ true
    → u ≢ dummy_stem
    → label_message (dummy_word d) n ≢ label_message u m
unfolding ends_plain
mixed-apart d u n m plain other e = other (
    plain-injective u dummy_stem (to_string m ++ b'0' ∷ [])
      (to_string d ++ (to_string n ++ b'0' ∷ [])) plain refl (suffix-AllDigits m)
      (AllDigits-append (to_string d) _ (to_string-AllDigits d) (suffix-AllDigits n)) (sym e))

-- Where the hash has no collisions under the key, the labels of words that end in no digit and are
-- not the stem of the placeholders meet in no version, with each other and with placeholders. The
-- labels of two placeholders may meet, and what is stored there is encrypted under the same key.
pub bitmap_label-Apart :
    (sgx : Sgx) (key : List ℕ)
    → ((x y : List ℕ) → sgx.hash key x ≡ sgx.hash key y → x ≡ y)
    → Apart sgx key IsKeyword IsDummy
unfolding bitmap_label bitmap_key
bitmap_label-Apart sgx key free w u n m (inl (hw, ow)) (inl (hu, ou)) e =
    inl (bitmap_label-injective sgx key free w u n m hw hu e).0
bitmap_label-Apart sgx key free w u n m (inl (hw, ow)) (inr (d, same)) e =
    absurd (mixed-apart d w m n hw ow (sym (free _ _ e ∙ ap (λ t. label_message t m) same)))
bitmap_label-Apart sgx key free w u n m (inr (d, same)) (inl (hu, ou)) e =
    absurd (mixed-apart d u n m hu ou (sym (ap (λ t. label_message t n) same) ∙ free _ _ e))
bitmap_label-Apart sgx key free w u n m (inr dw) (inr du) e =
    inr (dw, du, ap (sgx.hash key) (key_message-label_message w u n m (free _ _ e)))
