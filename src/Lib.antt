-- ===== src/Lib.antt =====
-- A model of BearSSL, a TLS library in C, and theorems about it.
--
-- The program and how its parts interact. A `br_ssl_engine_context` moves bytes between the
-- transport, the application and a handshake processor (generated code, run as a coroutine).
-- It keeps three indices into its input buffer (ixa, ixb, ixc) and three into its output buffer
-- (oxa, oxb, oxc), and calls the record protection through a vtable. The engine's keys come from a
-- pseudorandom function and its random bytes from HMAC_DRBG, both over HMAC, which is over a hash
-- class. ChaCha20 and Poly1305 serve the
-- record protection; RSA formats, big integers, integer codecs and constant-time primitives serve the
-- cryptographic code.
--
-- Which file models which part:
--   Ct: the primitives NOT, MUX, EQ, ..., MAX of src/inner.h, under the names ct_not, mux, eq, ...,
--     ct_max. Ct/Compare and Ct/Select hold their laws. Only values are modelled, not time.
--   Codec: br_enc16le, ..., br_dec64be of src/inner.h and the range loops of src/codec/, with the
--     prefix br_ left out. Codec/RoundTrip holds the laws.
--   Engine/State: the fields of the engine context that record management uses, the record
--     protection as a parameter (RecordLayer), and size_t arithmetic with its wrap-around.
--   Engine/Err, Engine/RecordType: the constants.
--   Engine/Buffers, Engine/Receive, Engine/Send, Engine/Api: src/ssl/ssl_engine.c, with each C
--     function under its own name, without br_ssl_engine_ where the name is free. A function that
--     two layers share is named as there: recvrec_ack moves the registers and engine_recvrec_ack
--     is br_ssl_engine_recvrec_ack. Each has child modules for its laws.
--   Engine/Keys: br_ssl_engine_compute_master, compute_key_block and the br_ssl_engine_switch_*
--     functions of the same file; Engine/Keys/Mirror holds their laws. Engine/Run: the calls that
--     move bytes, the switches, the resets, and whatever else the handshake processor changes, as one
--     step relation; Engine/Run/Steps holds its invariant, Engine/Run/Live what follows.
--   Record/Chapol, Record/Gcm: src/ssl/ssl_rec_chapol.c and src/ssl/ssl_rec_gcm.c, each with its
--     laws in a child module. Record/Bytes holds what they share, Record/Channel joins them to the
--     keys of a session.
--   Hash/Sha2small, Hash/Sha1, Hash/Md5: src/hash/sha2small.c, sha1.c and md5.c. Hash/Blocks holds the
--     buffering and the padding that the three share, as functions of the compression function, with
--     their laws: Hash/Blocks/Spec hashes a whole message, and Hash/Blocks/Update and Hash/Blocks/Laws
--     relate the code to it. The Laws of each hash function show that it is one.
--   Hmac: src/mac/hmac.c, over a HashClass. Hmac/Laws and Hmac/Mac hold the laws.
--   Drbg: src/rand/hmac_drbg.c. Prf: src/ssl/prf.c, prf_md5sha1.c, prf_sha256.c.
--   Rsa: src/rsa/rsa_pkcs1_sig_pad.c, rsa_pkcs1_sig_unpad.c and rsa_ssl_decrypt.c. Rsa/Padding
--     describes the signature format on its own, Rsa/Unpad and Rsa/Sound relate the code to it;
--     Rsa/Secret does both for the premaster secret.
--   Symcipher/Chacha20, Symcipher/Poly1305: src/symcipher/chacha20_ct.c and poly1305_ctmul.c, each
--     with its laws in child modules. Chacha20/Block describes the block function on a matrix, and
--     Chacha20/Stream the counter mode. Poly1305/Words relates the five words of an accumulator to its
--     number, Poly1305/Product the multiplication, Poly1305/Inner the loop over the blocks to the
--     polynomial, Poly1305/Final the end and Poly1305/Laws the tag.
--   Int31: add, sub, iszero and mulacc of src/int/i31_*.c. Int31/Value gives the number,
--     and Int31/AddSub, Int31/Mul and Int31/Zero hold the laws.
--   Int31/Monty: src/int/i31_ninv31.c, i31_montmul.c and i31_fmont.c. Its child modules go from the
--     word inverse and a row of words (Inverse, Rows) over the turns and loops (Laws, Loop, Back) and
--     the last subtraction (Reduce) to the results (Product, Return).
--   Int31/Modpow: the loop of br_i31_modpow in src/int/i31_modpow.c, from where the base stands in
--     Montgomery form, and src/codec/ccopy.c, by words. Modpow/Residues computes modulo an odd
--     number, and Modpow/Exponent reads the exponent's bytes as a number.
--   Int31/Decode: src/int/i31_decode.c and i31_bitlen.c.
--   Common: lists, words, bitwise operations by their digits, and powers.
--   The Tests modules hold runs and the theorems at concrete inputs.
--
-- Conventions. A word is a natural number with its wrap-around written out (u8, u32, u64, size_add,
-- size_sub). Memory of the engine is one function from addresses to bytes, so that the two buffers
-- may be one or overlap; elsewhere a buffer is a list of bytes. A vtable call returns the changed
-- context. A function that returns 0 for failure gives `none`.
--
-- Parameters and what is assumed of them: the record protection (its max_plaintext and encrypt in
-- Engine/Send/Registers, its decrypt in Engine/Receive/Ack), the handshake processor
-- (Engine/Api/Handshake), the hash function (Hmac/Laws), br_poly1305_run (Record/Chapol/Laws), the
-- br_chacha20_run that br_poly1305_run is given (Symcipher/Poly1305/Run), the CTR mode and GHASH
-- (Record/Gcm/Laws). Each is a named hypothesis, and the tests show an instance of each.
-- Some are met inside the development: the two record protections meet what the engine asks, the hash
-- functions what HMAC asks, ChaCha20 and Poly1305 what the first record protection asks. The pseudorandom function and the init methods are parameters of
-- Engine/Keys without a hypothesis.
--
-- Fuel. jump_handshake runs its loop on fuel and is called with two rounds: a second round happens
-- only after all input was read, and then finds none. generate_loop and phash_loop run on as much
-- fuel as there are bytes to produce: each round produces at least one when the hash output is not
-- empty. The update loop of the hash functions has as much fuel as bytes of data: each round takes
-- at least one. So do the loops of ChaCha20 and Poly1305 (chacha20_loop, inner_loop). The loops over
-- the words of an integer, and modpow_loop over the bits of the exponent, are counted.
--
-- Not modelled: the generated handshake, X.509 and PEM decoders; AES and DES, the other hash functions and
-- curves; the other i31 functions (among them br_i31_muladd_small, and so br_i31_to_monty and the
-- start of br_i31_modpow), and the i15 and i32 integers; the CBC record protection; the session cache; I/O, tools, samples and tests.
pub mod Codec
pub mod Common
pub mod Ct
pub mod Drbg
pub mod Engine
pub mod Hash
pub mod Hmac
pub mod Int31
pub mod Prf
pub mod Record
pub mod Rsa
pub mod Symcipher
