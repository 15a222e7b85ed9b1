-- ===== src/Format.antt =====
-- The screens of a transaction on the Nano S (eos_format_nanos.c) and the functions of
-- eos_ux_nanos.c that go from one to the next.
pub mod State
pub mod Values
pub mod Actions
pub mod Screens
pub mod Transfers
pub mod Stakes
pub mod Order
pub mod Walk
pub mod Table
pub mod Asset
pub mod Amount
pub mod Chosen
use ledger_app_eos.Prelude.{
  ℕ, zero, suc, ◌+◌, ◌*◌, ◌%◌, ◌^◌, Bool, true, false, Option, none, some, List, [], ◌∷◌, replicate,
  ltb, ◌==◌, if◌then◌else◌,
}
use ledger_app_eos.Memory.{◌>>=◌, memcpy, read_uint}
use ledger_app_eos.Types.{NewaccountAction, VoteproducerAction, TxContext, Operation}
use ledger_app_eos.Text.{Frame, local_array, print_uint, print_summary, print_binary_summary}
use ledger_app_eos.Text.Buffer.{codes, get_or, strcpy, strcat, strlen}
use ledger_app_eos.Keys.{hash_and_encode_base58}
use ledger_app_eos.Format.State.{Formatter, Display}
use ledger_app_eos.Format.Values.{show, name_text}
use ledger_app_eos.Format.Actions

abbrev pub formatters : List Formatter
formatters =
    Formatter.transfer ∷ Formatter.buyram ∷ Formatter.buyrambytes ∷ Formatter.sellram
    ∷ Formatter.delegatebw ∷ Formatter.undelegatebw ∷ Formatter.voteproducer ∷ Formatter.newaccount
    ∷ []

-- An entry of a table. To read past its end is undefined.
unfoldable pub nth : {A : Type 0} → List A → ℕ → Option A
nth [] i = none
nth (x ∷ xs) zero = some x
nth (x ∷ xs) (suc i) = nth xs i

-- `ripemd160` is the hash of the SDK, `stale_olen` what an uninitialised variable of
-- eos_hash_and_encode_base58 holds, and `mem` the memory that a context's pointers point into.
module _ (ripemd160 : List ℕ → List ℕ) (stale_olen : ℕ) (mem : List ℕ) (frame : Frame)
    (t : TxContext) where
  unfoldable pub format_voteproducer_producers : Display → Option Display
  unfolding show name_text
  format_voteproducer_producers d = do
    action ← Actions.as_voteproducer t.op_details.op
    producer ← read_uint mem (action.producers + d.current_producer_index * 8) 8
    let index = (d.current_producer_index + 1) % 2 ^ 32
    let next =
        if ltb index action.num_producers then some Formatter.voteproducer_producers else none
    d ← show (codes " Producers ") (name_text frame producer) next d
    some (record d { current_producer_index = index })

  unfoldable pub format_voteproducer_proxy : Display → Option Display
  unfolding show name_text
  format_voteproducer_proxy d = do
    action ← Actions.as_voteproducer t.op_details.op
    show (codes " Set Proxy ") (name_text frame action.proxy) none d

  unfoldable pub setproxy_or_producers : Display → Option Display
  unfolding name_text
  setproxy_or_producers d = do
    action ← Actions.as_voteproducer t.op_details.op
    tmp ← name_text frame action.proxy
    let next =
        if get_or tmp 0 0 == 0
        then Formatter.voteproducer_producers
        else Formatter.voteproducer_proxy
    some (record d { formatter = some next })

  unfoldable pub format_voteproducer_voter : Display → Option Display
  unfolding show name_text setproxy_or_producers
  format_voteproducer_voter d = do
    action ← Actions.as_voteproducer t.op_details.op
    d ← show (codes "Vote Producer") (name_text frame action.voter) d.formatter d
    setproxy_or_producers d

  unfoldable pub format_voteproducer : Display → Option Display
  format_voteproducer d =
      some (record d { current_producer_index = 0; formatter = some Formatter.voteproducer_voter })

  unfoldable pub key_text : List ℕ → Option (List ℕ)
  unfolding hash_and_encode_base58
  key_text public_key = do
    (tmp, _) ← hash_and_encode_base58 ripemd160 stale_olen public_key 33 (local_array frame 64)
    some tmp

  unfoldable pub format_newaccount_active : Display → Option Display
  unfolding show name_text key_text
  format_newaccount_active d = do
    action ← Actions.as_newaccount t.op_details.op
    show (codes "  Active  ") (key_text action.active.public_key) none d

  unfoldable pub format_newaccount_owner : Display → Option Display
  unfolding show name_text key_text
  format_newaccount_owner d = do
    action ← Actions.as_newaccount t.op_details.op
    show (codes "  Owner   ") (key_text action.owner.public_key) (some Formatter.newaccount_active)
        d

  unfoldable pub format_newaccount_name : Display → Option Display
  unfolding show name_text key_text
  format_newaccount_name d = do
    action ← Actions.as_newaccount t.op_details.op
    show (codes "  Name   ") (name_text frame action.name) (some Formatter.newaccount_owner) d

  unfoldable pub format_transfer_creator : Display → Option Display
  unfolding show name_text key_text
  format_transfer_creator d = do
    action ← Actions.as_newaccount t.op_details.op
    show (codes " New Account ") (name_text frame action.creator) (some Formatter.newaccount_name) d

  unfoldable pub format_newaccount : Display → Option Display
  format_newaccount d = some (record d { formatter = some Formatter.transfer_creator })

  -- The calls of the functions of the table `formatters`, which are the only ones it is made for.
  unfoldable pub run_action : Formatter → Display → Option Display
  unfolding format_voteproducer format_newaccount
  run_action Formatter.transfer d = Actions.format_transfer frame t d
  run_action Formatter.buyram d = Actions.format_buyram frame t d
  run_action Formatter.buyrambytes d = Actions.format_buyrambytes frame t d
  run_action Formatter.sellram d = Actions.format_sellram frame t d
  run_action Formatter.delegatebw d = Actions.format_delegatebw frame t d
  run_action Formatter.undelegatebw d = Actions.format_undelegatebw frame t d
  run_action Formatter.voteproducer d = format_voteproducer d
  run_action Formatter.newaccount d = format_newaccount d
  run_action _ d = none

  unfoldable pub format_confirm_operation : Display → Option Display
  unfolding nth run_action print_uint
  format_confirm_operation d =
      if ltb 1 t.op_count
      then (do
        caption ← strcpy d.op_caption 0 (codes "Operation ")
        n ← strlen caption
        caption ← print_uint t.op_idx caption n
        caption ← strcat caption (codes " of ")
        n ← strlen caption
        caption ← print_uint t.op_count caption n
        next ← nth formatters t.op_details.type
        some (record d { op_caption = caption; formatter = some next }))
      else (do function ← nth formatters t.op_details.type; run_action function d)

  unfoldable pub format_confirm_transaction_details : Display → Option Display
  format_confirm_transaction_details d = some (record d { formatter = none })

  unfoldable pub format_confirm_transaction : Display → Option Display
  format_confirm_transaction d = some (record d { formatter = some Formatter.confirm_operation })

  unfoldable pub format_confirm_hash_detail : Display → Option Display
  unfolding print_binary_summary
  format_confirm_hash_detail d = do
    detail_caption ← strcpy d.detail_caption 0 (codes "Hash")
    detail_value ← print_binary_summary t.hash d.detail_value 32
    some (record d {
      detail_caption = detail_caption;
      detail_value = detail_value;
      formatter = some Formatter.confirm_hash;
    })

  unfoldable pub format_confirm_hash_warning : Display → Option Display
  format_confirm_hash_warning d = do
    detail_caption ← strcpy d.detail_caption 0 (codes "WARNING")
    detail_value ← strcpy (replicate 89 0) 0 (codes "No details available")
    some (record d {
      detail_caption = detail_caption;
      detail_value = detail_value;
      formatter = some Formatter.confirm_hash_detail;
    })

  unfoldable pub format_confirm_hash : Display → Option Display
  format_confirm_hash d = some (record d { formatter = some Formatter.confirm_hash_warning })

  -- The call of a formatter through the pointer.
  unfoldable pub run_formatter : Formatter → Display → Option Display
  unfolding format_voteproducer_voter format_voteproducer_proxy format_voteproducer_producers
      format_transfer_creator format_newaccount_name format_newaccount_owner
      format_newaccount_active format_confirm_operation format_confirm_transaction_details
      format_confirm_transaction format_confirm_hash format_confirm_hash_warning
      format_confirm_hash_detail
  run_formatter Formatter.transfer d = Actions.format_transfer frame t d
  run_formatter Formatter.transfer_from d = Actions.format_transfer_from frame t d
  run_formatter Formatter.transfer_to d = Actions.format_transfer_to frame t d
  run_formatter Formatter.transfer_quantity d = Actions.format_transfer_quantity frame t d
  run_formatter Formatter.buyram d = Actions.format_buyram frame t d
  run_formatter Formatter.buyram_payer d = Actions.format_buyram_payer frame t d
  run_formatter Formatter.buyram_receiver d = Actions.format_buyram_receiver frame t d
  run_formatter Formatter.buyram_quant d = Actions.format_buyram_quant frame t d
  run_formatter Formatter.buyrambytes d = Actions.format_buyrambytes frame t d
  run_formatter Formatter.buyrambytes_payer d = Actions.format_buyrambytes_payer frame t d
  run_formatter Formatter.buyrambytes_receiver d = Actions.format_buyrambytes_receiver frame t d
  run_formatter Formatter.buyrambytes_bytes d = Actions.format_buyrambytes_bytes frame t d
  run_formatter Formatter.sellram d = Actions.format_sellram frame t d
  run_formatter Formatter.sellram_account d = Actions.format_sellram_account frame t d
  run_formatter Formatter.sellram_bytes d = Actions.format_sellram_bytes frame t d
  run_formatter Formatter.delegatebw d = Actions.format_delegatebw frame t d
  run_formatter Formatter.delegatebw_from d = Actions.format_delegatebw_from frame t d
  run_formatter Formatter.delegatebw_receiver d = Actions.format_delegatebw_receiver frame t d
  run_formatter Formatter.delegatebw_stake_net_quantity d =
      Actions.format_delegatebw_stake_net_quantity frame t d
  run_formatter Formatter.delegatebw_stake_cpu_quantity d =
      Actions.format_delegatebw_stake_cpu_quantity frame t d
  run_formatter Formatter.delegatebw_transfer d = Actions.format_delegatebw_transfer frame t d
  run_formatter Formatter.undelegatebw d = Actions.format_undelegatebw frame t d
  run_formatter Formatter.undelegatebw_from d = Actions.format_undelegatebw_from frame t d
  run_formatter Formatter.undelegatebw_receiver d = Actions.format_undelegatebw_receiver frame t d
  run_formatter Formatter.undelegatebw_stake_net_quantity d =
      Actions.format_undelegatebw_stake_net_quantity frame t d
  run_formatter Formatter.undelegatebw_stake_cpu_quantity d =
      Actions.format_undelegatebw_stake_cpu_quantity frame t d
  run_formatter Formatter.voteproducer d = format_voteproducer d
  run_formatter Formatter.voteproducer_voter d = format_voteproducer_voter d
  run_formatter Formatter.voteproducer_proxy d = format_voteproducer_proxy d
  run_formatter Formatter.voteproducer_producers d = format_voteproducer_producers d
  run_formatter Formatter.newaccount d = format_newaccount d
  run_formatter Formatter.transfer_creator d = format_transfer_creator d
  run_formatter Formatter.newaccount_name d = format_newaccount_name d
  run_formatter Formatter.newaccount_owner d = format_newaccount_owner d
  run_formatter Formatter.newaccount_active d = format_newaccount_active d
  run_formatter Formatter.confirm_operation d = format_confirm_operation d
  run_formatter Formatter.confirm_transaction_details d = format_confirm_transaction_details d
  run_formatter Formatter.confirm_transaction d = format_confirm_transaction d
  run_formatter Formatter.confirm_hash d = format_confirm_hash d
  run_formatter Formatter.confirm_hash_warning d = format_confirm_hash_warning d
  run_formatter Formatter.confirm_hash_detail d = format_confirm_hash_detail d
