-- ===== src/Requests/Union.antt =====
-- The union of the context through its member `pk`: sizes, and the request that writes there.
use ledger_app_eos.Prelude.{
  length-replicate, ℕ, zero, suc, ◌*◌, ◌≤◌, ◌≡◌, refl, ap, ◌∙◌, ◌&&◌, not, Option, none, some, List,
  [], ◌∷◌, ◌++◌, length, take, drop, replicate, arith, ◌==◌, bit_and, length-append, length-drop,
}
use ledger_app_eos.Memory.Words.{le_bytes, length-le_bytes}
use ledger_app_eos.Outcome.{
  Leaves, ◌>>=◌, throw_if, reads, modify, Leaves->>=, Leaves-reads, Leaves-throw_if, Leaves-if,
}
use ledger_app_eos.Types.{max_bip32_len}
use ledger_app_eos.Text.{local_array}
use ledger_app_eos.Base58.{b58enc}
use ledger_app_eos.Keys.{hash_and_encode_base58, compress_public_key}
use ledger_app_eos.Device.{Device}
use ledger_app_eos.Context.{
  App, RequestType, bytes_of_words, words_of_bytes, pk_bytes, with_pk_bytes, pk_size,
}
use ledger_app_eos.Approval.{ui_show_address_init}
use ledger_app_eos.Requests.{
  read_path, put_address, set_result_get_public_key, answer_public_key, handle_get_public_key,
  handle_get_app_configuration, read_bip32, p1_signature, p1_no_signature, p2_confirm,
  p2_no_confirm,
}
use ledger_app_eos.Requests.Sizes.{IsContext, IsRequestStatus, length-write}

length-take : (n : ℕ) (xs : List ℕ) → n ≤ length xs → length (take n xs) ≡ n
length-take zero xs h = refl
length-take (suc n) [] h = elim h [ ]
length-take (suc n) (x ∷ xs) h = ap suc (length-take n xs (omega arith))

length-bytes_of_words : (words : List ℕ) → length (bytes_of_words words) ≡ 4 * length words
unfolding bytes_of_words
length-bytes_of_words [] = refl
length-bytes_of_words (w ∷ words) = omega (
  arith,
  length-append (le_bytes 4 w) (bytes_of_words words),
  length-le_bytes 4 w,
  length-bytes_of_words words,
)

length-words_of_bytes : (n : ℕ) (bytes : List ℕ) → length (words_of_bytes n bytes) ≡ n
unfolding words_of_bytes
length-words_of_bytes zero bytes = refl
length-words_of_bytes (suc n) bytes = ap suc (length-words_of_bytes n (drop 4 bytes))

length-pk_bytes : (s : App) → IsContext s → length (pk_bytes s) ≡ pk_size
unfolding pk_bytes
length-pk_bytes s c =
    length-take pk_size (s.tx.bip32_len ∷ s.padding ++ (bytes_of_words s.tx.bip32 ++ s.tx.raw)) (
      omega (
        arith,
        c.raw_size,
        c.path_size,
        length-append s.padding (bytes_of_words s.tx.bip32 ++ s.tx.raw),
        length-append (bytes_of_words s.tx.bip32) s.tx.raw,
        length-bytes_of_words s.tx.bip32,
      ))

-- A write of all the bytes of `pk` leaves arrays of the same sizes.
with_pk_bytes-IsContext :
    (bytes : List ℕ) (s : App)
    → length bytes ≡ pk_size
    → IsContext s
    → IsContext (with_pk_bytes bytes s)
unfolding with_pk_bytes
with_pk_bytes-IsContext bytes s h c = record {
  raw_size = omega (
    arith,
    h,
    c.raw_size,
    length-append (drop 44 bytes) (drop (length (drop 44 bytes)) s.tx.raw),
    length-drop 44 bytes,
    length-drop (length (drop 44 bytes)) s.tx.raw,
  );
  path_size = length-words_of_bytes max_bip32_len (drop 4 bytes);
  padding_size = length-take 3 (drop 1 bytes) (omega (arith, h, length-drop 1 bytes));
}

length-hash_and_encode_base58 :
    (ripemd160 : List ℕ → List ℕ) (stale_olen : ℕ) (bytes : List ℕ) (inlen : ℕ) (out : List ℕ)
    {out' : List ℕ} {n : ℕ}
    → hash_and_encode_base58 ripemd160 stale_olen bytes inlen out ≡ some (out', n)
    → length out' ≡ length out
unfolding hash_and_encode_base58 b58enc
length-hash_and_encode_base58 ripemd160 stale_olen bytes inlen out e = grind (arith, length-write)

store_address-Leaves :
    (o : Option (List ℕ × ℕ)) (s : App)
    → IsContext s
    → ((out : List ℕ) (n : ℕ) → o ≡ some (out, n) → length out ≡ pk_size)
    → Leaves IsContext IsRequestStatus
        ((reads o >>= λ x. modify (λ (s : App). with_pk_bytes (x.0) s)) s)
store_address-Leaves none s c h = tt
store_address-Leaves (some (out, n)) s c h = with_pk_bytes-IsContext out s (h out n refl) c

read_path-Leaves :
    (data_buffer bip32 : List ℕ) (s : App)
    → IsContext s
    → Leaves IsContext IsRequestStatus (read_path data_buffer bip32 s)
unfolding read_path read_bip32
read_path-Leaves data_buffer bip32 s c = grind (arith)

cleared_address-size :
    (s : App) → IsContext s → length (replicate 50 0 ++ drop 50 (pk_bytes s)) ≡ pk_size
cleared_address-size s c = omega (
  arith,
  length-pk_bytes s c,
  length-append (replicate 50 0) (drop 50 (pk_bytes s)),
  length-replicate 50 0,
  length-drop 50 (pk_bytes s),
)

pub set_result_get_public_key-Leaves :
    (s : App) → IsContext s → Leaves IsContext IsRequestStatus (set_result_get_public_key s)
unfolding set_result_get_public_key
set_result_get_public_key-Leaves s c = grind (arith)

pub handle_get_app_configuration-Leaves :
    (s : App) → IsContext s → Leaves IsContext IsRequestStatus (handle_get_app_configuration s)
unfolding handle_get_app_configuration
handle_get_app_configuration-Leaves s c = grind (arith)

module _ (device : Device) where
  put_address-Leaves :
      (path : List ℕ) (s : App)
      → IsContext s
      → Leaves IsContext IsRequestStatus (put_address device path s)
  unfolding put_address
  put_address-Leaves path s c =
      let R = IsContext in
      let E = IsRequestStatus in
      let cleared = replicate 50 0 ++ drop 50 (pk_bytes s) in
      let c1 = with_pk_bytes-IsContext cleared s (cleared_address-size s c) c in
      let w = device.public_key (device.derive_node path) in
      Leaves->>= R E (reads (compress_public_key w (replicate 33 0) 33)) _ (with_pk_bytes cleared s)
        (Leaves-reads R E (compress_public_key w (replicate 33 0) 33) (with_pk_bytes cleared s) c1)
        λ key s2 c2.
          store_address-Leaves
            (hash_and_encode_base58 device.ripemd160 device.stale_olen key 33 (pk_bytes s2)) s2 c2
            λ out n e.
              length-hash_and_encode_base58 device.ripemd160 device.stale_olen key 33 (pk_bytes s2)
                e
              ∙ length-pk_bytes s2 c2

  ui_show_address_init-Leaves :
      (s : App) → IsContext s → Leaves IsContext IsRequestStatus (ui_show_address_init device s)
  unfolding ui_show_address_init
  ui_show_address_init-Leaves s c = grind (arith)

  answer_public_key-Leaves :
      (p2 : ℕ) (s : App)
      → IsContext s
      → Leaves IsContext IsRequestStatus (answer_public_key device p2 s)
  unfolding answer_public_key
  answer_public_key-Leaves p2 s c =
      let confirming : App = record s { req_type = RequestType.confirm_address } in
      let c1 : IsContext confirming = ground arith in
      Leaves-if IsContext IsRequestStatus (not (bit_and p2 p2_confirm == 0)) _ _ s
        (Leaves->>= IsContext IsRequestStatus (ui_show_address_init device) _ confirming
          (ui_show_address_init-Leaves confirming c1) λ u s2 c2. grind (arith))
        (Leaves->>= IsContext IsRequestStatus set_result_get_public_key _ s
          (set_result_get_public_key-Leaves s c) λ n s2 c2. grind (arith))

  pub handle_get_public_key-Leaves :
      (p1 p2 : ℕ) (data_buffer : List ℕ) (data_length : ℕ) (s : App)
      → IsContext s
      → Leaves IsContext IsRequestStatus
          (handle_get_public_key device p1 p2 data_buffer data_length s)
  unfolding handle_get_public_key
  handle_get_public_key-Leaves p1 p2 data_buffer data_length s c =
      let R = IsContext in
      let E = IsRequestStatus in
      Leaves->>= R E (throw_if (not (p1 == p1_signature) && not (p1 == p1_no_signature)) 0x6b00) _ s
        (Leaves-throw_if R E _ 0x6b00 s c refl)
        λ u1 s1 c1.
          Leaves->>= R E (throw_if (not (p2 == p2_confirm) && not (p2 == p2_no_confirm)) 0x6b00) _
            s1 (Leaves-throw_if R E _ 0x6b00 s1 c1 refl)
            λ u2 s2 c2.
              Leaves->>= R E (read_path data_buffer (local_array device.frame max_bip32_len)) _ s2
                (read_path-Leaves data_buffer (local_array device.frame max_bip32_len) s2 c2)
                λ path s3 c3.
                  Leaves->>= R E (put_address device path) _ s3 (put_address-Leaves path s3 c3)
                    λ u4 s4 c4. answer_public_key-Leaves p2 s4 c4
