-- ===== src/Enclave/Context.antt =====
-- ClientContext of data_type.h, and the state that a request runs in.
-- An `int` of the context is a ℕ: the enclave only builds contexts in which none is negative.
use veil_db.Base.{ℕ, replicate, List, [], suc, Outcome, ok, threw, bind, Exception}
use veil_db.Base.Assoc.{Assoc}
use veil_db.Enclave.Bitset.{Bitset, no_bits}
use veil_db.Host.Storage.{EncDatabase}

-- CachedDocSlot
pub record CachedDocSlot : Type 0 where
  pub index_csv : List ℕ
  pub body : List ℕ

pub record ClientContext : Type 0 where
  pub client_id : ℕ
  pub key : List ℕ
  pub enc_key : List ℕ
  pub ck : Assoc Bitset
  pub doc_ck : Assoc CachedDocSlot
  pub kvs : Assoc ℕ
  pub words_kvs : List (List ℕ)
  pub ck_max : ℕ
  pub doc_ck_max : ℕ
  pub dummy_count : ℕ
  pub dummy_size : ℕ
  pub dummy_replenish_counter : ℕ
  pub retrieval_limit : ℕ
  pub retrieval_threshold : ℕ
  pub retrieval_batch_size : ℕ
  pub all_docs : Bitset
  pub endof_doc_id : ℕ
  pub doc_slot_version : ℕ → ℕ

abbrev pub zero_key : List ℕ
zero_key = replicate 16 0

-- make_fresh_context. The key is the zero key until ecall_generate_init_key draws one.
unfoldable pub make_fresh_context : ℕ → ClientContext
make_fresh_context client_id = record {
  client_id = client_id;
  key = zero_key;
  enc_key = [];
  ck = [];
  doc_ck = [];
  kvs = [];
  words_kvs = [];
  ck_max = 10;
  doc_ck_max = 10;
  dummy_count = 0;
  dummy_size = 1000;
  dummy_replenish_counter = 0;
  retrieval_limit = 100;
  retrieval_threshold = 5;
  retrieval_batch_size = 5;
  all_docs = no_bits;
  endof_doc_id = 1;
  doc_slot_version = λ slot. 0;
}

-- What a request reads and writes: the active context, the host's database, which its edb_id names
-- (handle_request_core has opened it before), and the numbers that std::random_device still gives.
pub record Enclave : Type 0 where
  pub ctx : ClientContext
  pub edb : EncDatabase
  pub random : ℕ → ℕ

abbrev pub Run : Type 0 → Type 0
Run A = Enclave → Outcome (A × Enclave)

infixl 5 ◌>>=◌ ◌>>◌
abbrev pub ◌>>=◌ : {A B : Type 0} → Run A → (A → Run B) → Run B
◌>>=◌ m f s = bind (m s) (λ (a, s'). f a s')

abbrev pub ◌>>◌ : {B : Type 0} → Run (Unit {0}) → Run B → Run B
m >> k = m >>= λ _. k

abbrev pub pure : {A : Type 0} → A → Run A
pure a s = ok (a, s)

abbrev pub lift : {A : Type 0} → Outcome A → Run A
lift m s = bind m (λ a. ok (a, s))

abbrev pub raise : {A : Type 0} → Exception → Run A
raise e s = threw e

abbrev pub get_ctx : Run ClientContext
get_ctx s = ok (s.ctx, s)

abbrev pub set_ctx : ClientContext → Run (Unit {0})
set_ctx c s = ok (tt, record s { ctx = c })

-- One number out of a generator that is seeded anew.
abbrev pub draw : Run ℕ
draw s = ok (s.random 0, record s { random = λ i. s.random (suc i) })
