-- ===== src/Host/Storage.antt =====
-- EncDatebase.h, and store_bitmap, load_bitmap, store_docs and load_docs of Server.cpp.
use veil_db.Base.{ℕ, List, [], ◌∷◌, Option, none, some}
use veil_db.Base.Assoc.{Assoc, find, assign}

-- EncDatabase without its mutex; labels and cipher texts are byte strings.
pub record EncDatabase : Type 0 where
  pub bitmaps : Assoc (List ℕ)
  pub docs : Assoc (List ℕ)

abbrev pub empty_edb : EncDatabase
empty_edb = record { bitmaps = []; docs = [] }

-- `outs` and `outs_res` side by side.
unfoldable pub store_all : List (List ℕ × List ℕ) → Assoc (List ℕ) → Assoc (List ℕ)
store_all [] m = m
store_all ((label, cipher) ∷ outs) m = store_all outs (assign label cipher m)

unfoldable pub store_bitmap : List (List ℕ × List ℕ) → EncDatabase → EncDatabase
unfolding store_all
store_bitmap outs edb = record edb { bitmaps = store_all outs edb.bitmaps }

-- `edb.bitmaps[label]` enters an empty string for a label that is not there.
unfoldable pub load_bitmap : List ℕ → EncDatabase → List ℕ × EncDatabase
load_bitmap label edb = elim (find label edb.bitmaps) [
  | some cipher ↦ (cipher, edb)
  | none ↦ ([], record edb { bitmaps = assign label [] edb.bitmaps })
]

unfoldable pub store_docs : List (List ℕ × List ℕ) → EncDatabase → EncDatabase
unfolding store_all
store_docs outs edb = record edb { docs = store_all outs edb.docs }

-- `res_list` starts with empty strings, and a label that is not there leaves its own.
unfoldable pub doc_at : Option (List ℕ) → List ℕ
doc_at none = []
doc_at (some cipher) = cipher

unfoldable pub load_docs : List (List ℕ) → EncDatabase → List (List ℕ)
unfolding doc_at
load_docs [] edb = []
load_docs (label ∷ ins) edb = doc_at (find label edb.docs) ∷ load_docs ins edb
