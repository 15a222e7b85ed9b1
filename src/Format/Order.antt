-- ===== src/Format/Order.antt =====
-- The order of the screens: an operation's screens come to an end.
use ledger_app_eos.Prelude.{
  ℕ, ◌+◌, ◌*◌, ◌%◌, ◌^◌, ◌<◌, ◌≡◌, false, Option, none, some, List, ltb, ◌==◌, if◌then◌else◌, arith,
}
use ledger_app_eos.Memory.{read_uint}
use ledger_app_eos.Types.{TxContext}
use ledger_app_eos.Text.{Frame, print_uint}
use ledger_app_eos.Text.Buffer.{codes, strcpy, strcat, strlen, get_or}
use ledger_app_eos.Format.State.{Formatter, Display}
use ledger_app_eos.Format.Values.{show, name_text}
use ledger_app_eos.Format.{nth, formatters}
use ledger_app_eos.Format
use ledger_app_eos.Format.Actions.{
  as_transfer, as_buyram, as_buyrambytes, as_sellram, as_delegatebw, as_undelegatebw,
  as_voteproducer, as_newaccount,
}
use ledger_app_eos.Format.Actions
use ledger_app_eos.Format.Screens.{
  IfSome, IfSome->>=, bind-IfSome, bind-eq, if-IfSome, nth-IfSome, show-IfSome, producer_count,
  is_hash_screen, screens_left, producer_count-some, next_producer, proxy_or_producers, Fewer,
  action_shows, bound, Shrinks,
}
use ledger_app_eos.Format.Transfers.{
  transfer-Shrinks, transfer_from-Shrinks, transfer_to-Shrinks, transfer_quantity-Shrinks,
  buyram-Shrinks, buyram_payer-Shrinks, buyram_receiver-Shrinks, buyram_quant-Shrinks,
  buyrambytes-Shrinks, buyrambytes_payer-Shrinks, buyrambytes_receiver-Shrinks,
  buyrambytes_bytes-Shrinks, sellram-Shrinks, sellram_account-Shrinks, sellram_bytes-Shrinks,
}
use ledger_app_eos.Format.Stakes.{
  delegatebw-Shrinks, delegatebw_from-Shrinks, delegatebw_receiver-Shrinks,
  delegatebw_stake_net_quantity-Shrinks, delegatebw_stake_cpu_quantity-Shrinks,
  delegatebw_transfer-Shrinks, undelegatebw-Shrinks, undelegatebw_from-Shrinks,
  undelegatebw_receiver-Shrinks, undelegatebw_stake_net_quantity-Shrinks,
  undelegatebw_stake_cpu_quantity-Shrinks, newaccount-Shrinks, newaccount_active-Shrinks,
  newaccount_owner-Shrinks, newaccount_name-Shrinks, transfer_creator-Shrinks,
}

module _ (ripemd160 : List ℕ → List ℕ) (stale_olen : ℕ) (mem : List ℕ) (frame : Frame)
    (t : TxContext) where
  voteproducer-Shrinks : Shrinks ripemd160 stale_olen mem frame t Formatter.voteproducer
  unfolding Format.run_formatter Format.format_voteproducer
  voteproducer-Shrinks d h = omega arith

  voteproducer_proxy-Shrinks : Shrinks ripemd160 stale_olen mem frame t Formatter.voteproducer_proxy
  unfolding Format.run_formatter Format.format_voteproducer_proxy
  voteproducer_proxy-Shrinks d h =
      action_shows t (as_voteproducer t.op_details.op) (λ action. name_text frame action.proxy)
        (codes " Set Proxy ") none d
        (bound ripemd160 stale_olen mem frame t d Formatter.voteproducer_proxy) (omega arith)

  confirm_transaction-Shrinks :
      Shrinks ripemd160 stale_olen mem frame t Formatter.confirm_transaction
  unfolding Format.run_formatter Format.format_confirm_transaction
  confirm_transaction-Shrinks d h = omega arith

  confirm_transaction_details-Shrinks :
      Shrinks ripemd160 stale_olen mem frame t Formatter.confirm_transaction_details
  unfolding Format.run_formatter Format.format_confirm_transaction_details
  confirm_transaction_details-Shrinks d h = omega arith

  voteproducer_voter-Shrinks : Shrinks ripemd160 stale_olen mem frame t Formatter.voteproducer_voter
  unfolding Format.run_formatter Format.format_voteproducer_voter Format.setproxy_or_producers
  voteproducer_voter-Shrinks d h =
      IfSome->>= (Fewer t (bound ripemd160 stale_olen mem frame t d Formatter.voteproducer_voter))
        (as_voteproducer t.op_details.op) _
        λ action.
          bind-IfSome (λ d'. d'.current_producer_index ≡ d.current_producer_index) _
            (show (codes "Vote Producer") (name_text frame action.voter) d.formatter d) _
            (show-IfSome _ (codes "Vote Producer") (name_text frame action.voter) d.formatter d
              λ d' e i. i)
            λ d' i.
              IfSome->>=
                (Fewer t (bound ripemd160 stale_olen mem frame t d Formatter.voteproducer_voter))
                (as_voteproducer t.op_details.op) _
                λ action'.
                  IfSome->>=
                    (Fewer t
                      (bound ripemd160 stale_olen mem frame t d Formatter.voteproducer_voter))
                    (name_text frame action'.proxy) _
                    λ tmp.
                      proxy_or_producers (producer_count t) d.current_producer_index
                        d'.current_producer_index (get_or tmp 0 0 == 0) i

  voteproducer_producers-Shrinks :
      Shrinks ripemd160 stale_olen mem frame t Formatter.voteproducer_producers
  unfolding Format.run_formatter Format.format_voteproducer_producers
  voteproducer_producers-Shrinks d h =
      bind-eq (Fewer t (bound ripemd160 stale_olen mem frame t d Formatter.voteproducer_producers))
        (as_voteproducer t.op_details.op) _
        λ action found.
          IfSome->>=
            (Fewer t (bound ripemd160 stale_olen mem frame t d Formatter.voteproducer_producers))
            (read_uint mem (action.producers + d.current_producer_index * 8) 8) _
            λ producer.
              let index = (d.current_producer_index + 1) % 2 ^ 32 in
              let next : Option Formatter =
                if ltb index action.num_producers
                then some Formatter.voteproducer_producers
                else none in
              bind-IfSome (λ d'. d'.formatter ≡ next)
                (Fewer t
                  (bound ripemd160 stale_olen mem frame t d Formatter.voteproducer_producers))
                (show (codes " Producers ") (name_text frame producer) next d) _
                (show-IfSome _ (codes " Producers ") (name_text frame producer) next d λ d' e i. e)
                λ d' e.
                  rw (e, producer_count-some t action found)
                    (next_producer action.num_producers d.current_producer_index h)

  table_bound :
      (i x : ℕ)
      → IfSome
          (λ f. screens_left (producer_count t) x (some f) < 7 + producer_count t)
          (nth formatters i)
  table_bound i x =
      nth-IfSome (λ f. screens_left (producer_count t) x (some f) < 7 + producer_count t) formatters
        (
          omega arith,
          (
            omega arith,
            (
              omega arith,
              (omega arith, (omega arith, (omega arith, (omega arith, (omega arith, tt))))),
            ),
          ),
        )
        i

  run_action-Fewer :
      (f : Formatter) (d : Display)
      → IfSome
          (Fewer t (7 + producer_count t))
          (Format.run_action ripemd160 stale_olen mem frame t f d)
  unfolding Format.run_action Actions.format_transfer Actions.format_buyram
      Actions.format_buyrambytes Actions.format_sellram Actions.format_delegatebw
      Actions.format_undelegatebw Format.format_voteproducer Format.format_newaccount
  run_action-Fewer Formatter.transfer d = omega arith
  run_action-Fewer Formatter.buyram d = omega arith
  run_action-Fewer Formatter.buyrambytes d = omega arith
  run_action-Fewer Formatter.sellram d = omega arith
  run_action-Fewer Formatter.delegatebw d = omega arith
  run_action-Fewer Formatter.undelegatebw d = omega arith
  run_action-Fewer Formatter.voteproducer d = omega arith
  run_action-Fewer Formatter.newaccount d = omega arith
  run_action-Fewer _ d = tt

  confirm_operation-Shrinks : Shrinks ripemd160 stale_olen mem frame t Formatter.confirm_operation
  unfolding Format.run_formatter Format.format_confirm_operation
  confirm_operation-Shrinks d h =
      let P = Fewer t (bound ripemd160 stale_olen mem frame t d Formatter.confirm_operation) in
      if-IfSome P (ltb 1 t.op_count) _ _
        (IfSome->>= P (strcpy d.op_caption 0 (codes "Operation ")) _ λ c1.
          IfSome->>= P (strlen c1) _ λ n1. IfSome->>= P (print_uint t.op_idx c1 n1) _ λ c2.
            IfSome->>= P (strcat c2 (codes " of ")) _ λ c3. IfSome->>= P (strlen c3) _ λ n2.
              IfSome->>= P (print_uint t.op_count c3 n2) _ λ c4.
                bind-IfSome
                  (λ f.
                    screens_left (producer_count t) d.current_producer_index (some f)
                    < 7 + producer_count t)
                  P (nth formatters t.op_details.type) _
                  (table_bound t.op_details.type d.current_producer_index) λ f q. q)
        (IfSome->>= P (nth formatters t.op_details.type) _ λ f. run_action-Fewer f d)

  -- Each formatter that an operation's screens use leaves fewer screens behind it than it found: the
  -- screens of an operation come to an end. The hash screens, which go round, are left out, and the
  -- producers shown so far are fewer than a uint32_t counts.
  pub run_formatter-Fewer :
      (f : Formatter) (d : Display)
      → is_hash_screen f ≡ false
      → d.current_producer_index + 1 < 2 ^ 32
      → IfSome
          (Fewer t (screens_left (producer_count t) d.current_producer_index (some f)))
          (Format.run_formatter ripemd160 stale_olen mem frame t f d)
  run_formatter-Fewer Formatter.transfer d e h =
      transfer-Shrinks ripemd160 stale_olen mem frame t d h
  run_formatter-Fewer Formatter.transfer_from d e h =
      transfer_from-Shrinks ripemd160 stale_olen mem frame t d h
  run_formatter-Fewer Formatter.transfer_to d e h =
      transfer_to-Shrinks ripemd160 stale_olen mem frame t d h
  run_formatter-Fewer Formatter.transfer_quantity d e h =
      transfer_quantity-Shrinks ripemd160 stale_olen mem frame t d h
  run_formatter-Fewer Formatter.buyram d e h = buyram-Shrinks ripemd160 stale_olen mem frame t d h
  run_formatter-Fewer Formatter.buyram_payer d e h =
      buyram_payer-Shrinks ripemd160 stale_olen mem frame t d h
  run_formatter-Fewer Formatter.buyram_receiver d e h =
      buyram_receiver-Shrinks ripemd160 stale_olen mem frame t d h
  run_formatter-Fewer Formatter.buyram_quant d e h =
      buyram_quant-Shrinks ripemd160 stale_olen mem frame t d h
  run_formatter-Fewer Formatter.buyrambytes d e h =
      buyrambytes-Shrinks ripemd160 stale_olen mem frame t d h
  run_formatter-Fewer Formatter.buyrambytes_payer d e h =
      buyrambytes_payer-Shrinks ripemd160 stale_olen mem frame t d h
  run_formatter-Fewer Formatter.buyrambytes_receiver d e h =
      buyrambytes_receiver-Shrinks ripemd160 stale_olen mem frame t d h
  run_formatter-Fewer Formatter.buyrambytes_bytes d e h =
      buyrambytes_bytes-Shrinks ripemd160 stale_olen mem frame t d h
  run_formatter-Fewer Formatter.sellram d e h = sellram-Shrinks ripemd160 stale_olen mem frame t d h
  run_formatter-Fewer Formatter.sellram_account d e h =
      sellram_account-Shrinks ripemd160 stale_olen mem frame t d h
  run_formatter-Fewer Formatter.sellram_bytes d e h =
      sellram_bytes-Shrinks ripemd160 stale_olen mem frame t d h
  run_formatter-Fewer Formatter.delegatebw d e h =
      delegatebw-Shrinks ripemd160 stale_olen mem frame t d h
  run_formatter-Fewer Formatter.delegatebw_from d e h =
      delegatebw_from-Shrinks ripemd160 stale_olen mem frame t d h
  run_formatter-Fewer Formatter.delegatebw_receiver d e h =
      delegatebw_receiver-Shrinks ripemd160 stale_olen mem frame t d h
  run_formatter-Fewer Formatter.delegatebw_stake_net_quantity d e h =
      delegatebw_stake_net_quantity-Shrinks ripemd160 stale_olen mem frame t d h
  run_formatter-Fewer Formatter.delegatebw_stake_cpu_quantity d e h =
      delegatebw_stake_cpu_quantity-Shrinks ripemd160 stale_olen mem frame t d h
  run_formatter-Fewer Formatter.delegatebw_transfer d e h =
      delegatebw_transfer-Shrinks ripemd160 stale_olen mem frame t d h
  run_formatter-Fewer Formatter.undelegatebw d e h =
      undelegatebw-Shrinks ripemd160 stale_olen mem frame t d h
  run_formatter-Fewer Formatter.undelegatebw_from d e h =
      undelegatebw_from-Shrinks ripemd160 stale_olen mem frame t d h
  run_formatter-Fewer Formatter.undelegatebw_receiver d e h =
      undelegatebw_receiver-Shrinks ripemd160 stale_olen mem frame t d h
  run_formatter-Fewer Formatter.undelegatebw_stake_net_quantity d e h =
      undelegatebw_stake_net_quantity-Shrinks ripemd160 stale_olen mem frame t d h
  run_formatter-Fewer Formatter.undelegatebw_stake_cpu_quantity d e h =
      undelegatebw_stake_cpu_quantity-Shrinks ripemd160 stale_olen mem frame t d h
  run_formatter-Fewer Formatter.voteproducer d e h = voteproducer-Shrinks d h
  run_formatter-Fewer Formatter.voteproducer_voter d e h = voteproducer_voter-Shrinks d h
  run_formatter-Fewer Formatter.voteproducer_proxy d e h = voteproducer_proxy-Shrinks d h
  run_formatter-Fewer Formatter.voteproducer_producers d e h = voteproducer_producers-Shrinks d h
  run_formatter-Fewer Formatter.newaccount d e h =
      newaccount-Shrinks ripemd160 stale_olen mem frame t d h
  run_formatter-Fewer Formatter.transfer_creator d e h =
      transfer_creator-Shrinks ripemd160 stale_olen mem frame t d h
  run_formatter-Fewer Formatter.newaccount_name d e h =
      newaccount_name-Shrinks ripemd160 stale_olen mem frame t d h
  run_formatter-Fewer Formatter.newaccount_owner d e h =
      newaccount_owner-Shrinks ripemd160 stale_olen mem frame t d h
  run_formatter-Fewer Formatter.newaccount_active d e h =
      newaccount_active-Shrinks ripemd160 stale_olen mem frame t d h
  run_formatter-Fewer Formatter.confirm_operation d e h = confirm_operation-Shrinks d h
  run_formatter-Fewer Formatter.confirm_transaction_details d e h =
      confirm_transaction_details-Shrinks d h
  run_formatter-Fewer Formatter.confirm_transaction d e h = confirm_transaction-Shrinks d h
  run_formatter-Fewer Formatter.confirm_hash d e h = cc
  run_formatter-Fewer Formatter.confirm_hash_warning d e h = cc
  run_formatter-Fewer Formatter.confirm_hash_detail d e h = cc
