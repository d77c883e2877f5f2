-- ===== src/Lib.antt =====
-- VeilDB, an encrypted document database with keyword search inside an SGX enclave. A client turns
-- a query into a request, the host passes requests to the enclave and keeps its cipher texts, and
-- the enclave evaluates queries over a keyword index and keeps the documents.
--
-- The parts, with the files of the repository that they model:
--   * Base: outcomes of a C++ call, machine integers, maps with byte strings for keys, decimals.
--   * Protocol: EncDB/System_high/CryptoTestingApp/EncDBRequest.h, the requests and responses.
--   * Wire: EncDB/System_high/CryptoTestingApp/RPC.cpp. serialize_encdb_request and the other
--     three functions keep their names, and so do the readers and writers of one integer. A body
--     is read by a function for each branch (read_init_tail, read_select, read_update).
--   * Query: EncDB/System_high/CryptoTestingApp/QueryCodec.h, from the text of a query to its
--     postfix code.
--   * Host: Storage has the maps of EncDatebase.h and the four functions of Server.cpp on them, and
--     Server the EnclavePool and handle_request_core of Server.cpp, with what they call of
--     EncDBManager.cpp. The calls into an enclave are a list there, with their answers a parameter.
--   * Enclave: EncDB/System_high/CryptoEnclave/CryptoEnclave.cpp. Keywords has Search (as
--     search_keyword) and what it calls, Update has UpdateKeywords, Machine and Select have
--     handle_select without its documents. Docs has the slots of documents, run_slot_update and
--     the functions it calls, Retrieve has build_doc_access_plan and RetrieveDocs, and Request the
--     whole of handle_select. Init has append_dummy_keywords, ecall_update_init and
--     ecall_generate_init_key, and Handler has handle_update and ecall_handle_request. Snapshot
--     has serialize_context_metadata and deserialize_context_metadata. Bitset and Bytes have
--     std::bitset<total_file_no> and its bytes, Lifecycle the contexts of the clients and what
--     stores and loads them, and Bundle the document bundles of
--     EncDB/System_high/CryptoEnclave/EnclaveUtils.cpp.
--   * Client: EncDB/System_high/CryptoTestingApp/Client.cpp, from a line of input to a request.
--   * Tests: the theorems at concrete inputs.
--
-- A function that may fail returns an Outcome: a value, an exception that the source throws, or
-- `fault`, where the source leaves an array, a stack or its input (undefined behaviour). A function
-- that changes the active context or the host's database maps an Enclave, the two of them and the
-- random numbers still to come, to an Outcome with the Enclave after it.
--
-- The index is related to what it stands for by the record Indexes of Enclave/Keywords/Index: a
-- posting list for every keyword, found in the cache CK or, under the label of the version in KVS,
-- as a cipher text on the host. It asks that no two labels of known keywords meet, except that
-- those of placeholders may, which stand for nothing; Enclave/Keywords/Labels and
-- Enclave/Init/Labels are about the labels. The slots are related to a function from ids to
-- documents by the record Holds of Enclave/Docs/Slots: a slot is in the cache, or its cipher text
-- is on the host and opens to it. What else is known of a state, such as Indexes, is the parameter
-- Aside of these theorems, so that each part of the enclave is shown to keep what the other needs.
--
-- Bounds and fuel: parse_tokens runs on fuel 6n + 5 for n tokens, and the loops of
-- materialize_access_ids, append_dummy_keywords, provision_all_doc_slot_tombstones and
-- spill_doc_ck_if_needed on the number of ids or of cached slots, which is enough in each. The wait
-- for a placeholder in update_exchanging has fuel as a parameter, since it ends only with the luck
-- of the random numbers; the theorems about updates hold for any fuel, as no such wait is in them.
-- All other loops are over lists or counted.
--
-- Not modelled: AES-CMAC and AES-GCM of the SGX SDK are the record Sgx, a parameter, of which
-- decryption of what was encrypted under the same key and the length of a cipher text are asked.
-- Sealing is the record Sealer, of which it is asked that a sealed text opens to its plain one and
-- is longer by its header. Integers of the context are natural numbers, since none becomes
-- negative. The queue and the responses of the server, its files and sockets, what the client
-- prints, the programs with their prompts and timing, and the web gateway are not here.
pub mod Base
pub mod Client
pub mod Enclave
pub mod Host
pub mod Protocol
pub mod Query
pub mod Tests
pub mod Wire
