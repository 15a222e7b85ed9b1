-- ===== src/Format/Table/Votes.antt =====
-- The screens of a vote: the voter, then its proxy or its producers one by one.
use ledger_app_eos.Prelude.{
  ℕ, zero, suc, ◌+◌, ◌-◌, ◌*◌, ◌%◌, ◌^◌, ◌≤◌, ◌<◌, ◌≡◌, refl, ap, ◌∙◌, Bool, true, false, Option,
  none, some, List, [], ◌∷◌, arith, ltb, ◌==◌, if◌then◌else◌,
}
use ledger_app_eos.Memory.{◌>>=◌, read_uint}
use ledger_app_eos.Types.{TxContext, Operation, VoteproducerAction}
use ledger_app_eos.Text.{Frame}
use ledger_app_eos.Text.Buffer.{codes, get_or}
use ledger_app_eos.Format.State.{Formatter, Display}
use ledger_app_eos.Format.Values.{show, name_text}
use ledger_app_eos.Format
use ledger_app_eos.Format.Walk.{
  Screen, blank, all_fields, IsCaption, shown_then, summary, show-blank, walk, walk-shown,
  walk-fields, walk-blank,
}
use ledger_app_eos.Format.Table.{captioned}

producers : IsCaption (codes " Producers ")
producers = captioned (codes " Producers ") (omega arith) (omega arith)

voter : IsCaption (codes "Vote Producer")
voter = captioned (codes "Vote Producer") (omega arith) (omega arith)

module _ (ripemd160 : List ℕ → List ℕ) (stale_olen : ℕ) (mem : List ℕ) (frame : Frame)
    (t : TxContext) where
  -- The name at the i-th place of the producers of a vote.
  abbrev pub producer_text : VoteproducerAction → ℕ → Option (List ℕ)
  producer_text a i = read_uint mem (a.producers + i * 8) 8 >>= λ producer. name_text frame producer

  -- The producers from the i-th on: one, and `more` behind it.
  abbrev pub producer_fields : VoteproducerAction → ℕ → ℕ → List (List ℕ × Option (List ℕ))
  producer_fields a i zero = (codes " Producers ", producer_text a i) ∷ []
  producer_fields a i (suc more) =
      (codes " Producers ", producer_text a i) ∷ producer_fields a (i + 1) more

  -- The index that a screen's function sets last.
  with_index :
      (buffer : List ℕ) (i j : ℕ) (next : Option Formatter) (value : Option (List ℕ))
      → (shown_then buffer i next value >>= λ d. some (record d { current_producer_index = j }))
        ≡ shown_then buffer j next value
  with_index buffer i j next none = refl
  with_index buffer i j next (some v) = refl

  producer_shown :
      (i j : ℕ) (c : IsCaption (codes " Producers ")) (f next : Option Formatter)
      (producer : Option ℕ)
      → (producer >>= λ producer.
          show (codes " Producers ") (name_text frame producer) next (blank i f) >>= λ d.
          some (record d { current_producer_index = j }))
        ≡ shown_then (c.0) j next (summary (producer >>= λ producer. name_text frame producer))
  producer_shown i j c f next none = refl
  producer_shown i j c f next (some producer) =
      ap (λ (shown : Option Display). shown >>= λ d. some (record d { current_producer_index = j }))
        (show-blank (codes " Producers ") (name_text frame producer) next f i c)
      ∙ with_index (c.0) i j next (summary (name_text frame producer))

  -- What a screen of a producer leaves.
  producer_screen :
      (a : VoteproducerAction) (i : ℕ) (c : IsCaption (codes " Producers "))
      → t.op_details.op ≡ Operation.voteproducer a
      → i + 1 < 2 ^ 32
      → Format.run_formatter ripemd160 stale_olen mem frame t Formatter.voteproducer_producers
          (blank i (some Formatter.voteproducer_producers))
        ≡ shown_then
            (c.0)
            (i + 1)
            (if ltb (i + 1) a.num_producers then some Formatter.voteproducer_producers else none)
            (summary (producer_text a i))
  unfolding Format.run_formatter Format.format_voteproducer_producers
  producer_screen a i c e few =
      let small : (i + 1) % 2 ^ 32 ≡ i + 1 = omega (arith, few) in
      rw (e, small)
        (producer_shown i (i + 1) c (some Formatter.voteproducer_producers)
          (if ltb (i + 1) a.num_producers then some Formatter.voteproducer_producers else none)
          (read_uint mem (a.producers + i * 8) 8))

  is_last : (i num : ℕ) → num - (i + 1) ≡ 0 → ltb (i + 1) num ≡ false
  is_last i num h = ground (arith, h)

  is_more : (i more num : ℕ) → num - (i + 1) ≡ suc more → ltb (i + 1) num ≡ true
  is_more i more num h = ground (arith, h)

  walk_end :
      (rounds index : ℕ)
      → 0 < rounds
      → walk ripemd160 stale_olen mem frame t rounds index none ≡ all_fields []
  unfolding walk all_fields
  walk_end zero index h = absurd (omega (arith, h))
  walk_end (suc rounds) index h = refl

  -- The screens of the producers from the i-th on.
  producers_walk :
      (a : VoteproducerAction) (more i rounds : ℕ)
      → t.op_details.op ≡ Operation.voteproducer a
      → a.num_producers < 2 ^ 32
      → i + more < 2 ^ 32 - 1
      → a.num_producers - (i + 1) ≡ more
      → more + 1 < rounds
      → walk ripemd160 stale_olen mem frame t rounds i (some Formatter.voteproducer_producers)
        ≡ all_fields (producer_fields a i more)
  producers_walk a more i zero e few room last enough = absurd (omega (arith, enough))
  producers_walk a zero i (suc rounds) e few room last enough =
      walk-shown ripemd160 stale_olen mem frame t rounds i (i + 1) Formatter.voteproducer_producers
        (codes " Producers ") (producer_text a i) none [] producers
        (producer_screen a i producers e (omega (arith, room))
          ∙ ap
              (λ (b : Bool).
                shown_then (producers.0) (i + 1)
                  (if b then some Formatter.voteproducer_producers else none)
                  (summary (producer_text a i)))
              (is_last i a.num_producers last))
        (walk_end rounds (i + 1) (omega (arith, enough)))
  producers_walk a (suc more) i (suc rounds) e few room last enough =
      walk-shown ripemd160 stale_olen mem frame t rounds i (i + 1) Formatter.voteproducer_producers
        (codes " Producers ") (producer_text a i) (some Formatter.voteproducer_producers)
        (producer_fields a (i + 1) more) producers
        (producer_screen a i producers e (omega (arith, room))
          ∙ ap
              (λ (b : Bool).
                shown_then (producers.0) (i + 1)
                  (if b then some Formatter.voteproducer_producers else none)
                  (summary (producer_text a i)))
              (is_more i more a.num_producers last))
        (producers_walk a more (i + 1) rounds e few (omega (arith, room)) (omega (arith, last))
          (omega (arith, enough)))

  -- The formatter that the proxy's name, when it is not empty, leads to, and otherwise the producers'.
  abbrev pub behind_voter : List ℕ → Formatter
  behind_voter proxy =
      if get_or proxy 0 0 == 0
      then Formatter.voteproducer_producers
      else Formatter.voteproducer_proxy

  with_formatter :
      (buffer : List ℕ) (i : ℕ) (f next : Option Formatter) (value : Option (List ℕ))
      → (shown_then buffer i f value >>= λ d. some (record d { formatter = next }))
        ≡ shown_then buffer i next value
  with_formatter buffer i f next none = refl
  with_formatter buffer i f next (some v) = refl

  voter_screen :
      (a : VoteproducerAction) (proxy : List ℕ)
      → t.op_details.op ≡ Operation.voteproducer a
      → name_text frame a.proxy ≡ some proxy
      → Format.run_formatter ripemd160 stale_olen mem frame t Formatter.voteproducer_voter
          (blank 0 (some Formatter.voteproducer_voter))
        ≡ shown_then (voter.0) 0 (some (behind_voter proxy)) (summary (name_text frame a.voter))
  unfolding Format.run_formatter Format.format_voteproducer_voter Format.setproxy_or_producers
  voter_screen a proxy e named =
      rw (e, named)
        (ap
            (λ (shown : Option Display).
              shown >>= λ d. some (record d { formatter = some (behind_voter proxy) }))
            (show-blank (codes "Vote Producer") (name_text frame a.voter)
              (some Formatter.voteproducer_voter) (some Formatter.voteproducer_voter) 0 voter)
          ∙ with_formatter (voter.0) 0 (some Formatter.voteproducer_voter)
              (some (behind_voter proxy)) (summary (name_text frame a.voter)))

  -- What the screens behind the voter's show: the producers from the first one on, or the proxy.
  abbrev pub choice_fields : VoteproducerAction → List ℕ → List (List ℕ × Option (List ℕ))
  choice_fields a proxy =
      if get_or proxy 0 0 == 0
      then producer_fields a 0 (a.num_producers - 1)
      else (codes " Set Proxy ", name_text frame a.proxy) ∷ []

  proxy_walk :
      (a : VoteproducerAction) (rounds : ℕ)
      → t.op_details.op ≡ Operation.voteproducer a
      → 1 < rounds
      → walk ripemd160 stale_olen mem frame t rounds 0 (some Formatter.voteproducer_proxy)
        ≡ all_fields ((codes " Set Proxy ", name_text frame a.proxy) ∷ [])
  unfolding Format.run_formatter Format.format_voteproducer_proxy
  proxy_walk a zero e h = absurd (omega (arith, h))
  proxy_walk a (suc rounds) e h =
      walk-fields ripemd160 stale_olen mem frame t rounds 0 Formatter.voteproducer_proxy
        (codes " Set Proxy ") (name_text frame a.proxy) none []
        (captioned (codes " Set Proxy ") (omega arith) (omega arith)) (rw e refl)
        (walk_end rounds 0 (omega (arith, h)))

  choice_walk :
      (a : VoteproducerAction) (proxy : List ℕ) (rounds : ℕ)
      → t.op_details.op ≡ Operation.voteproducer a
      → a.num_producers < 2 ^ 32 - 1
      → a.num_producers + 1 < rounds
      → walk ripemd160 stale_olen mem frame t rounds 0 (some (behind_voter proxy))
        ≡ all_fields (choice_fields a proxy)
  choice_walk a proxy rounds e few enough = elim_on (get_or proxy 0 0 == 0)
    where
      elim_on :
          (empty : Bool)
          → walk ripemd160 stale_olen mem frame t rounds 0 (
              some
                (if empty then Formatter.voteproducer_producers else Formatter.voteproducer_proxy))
            ≡ all_fields (
                if empty
                then producer_fields a 0 (a.num_producers - 1)
                else (codes " Set Proxy ", name_text frame a.proxy) ∷ [])
      elim_on true =
          producers_walk a (a.num_producers - 1) 0 rounds e (omega (arith, few))
            (omega (arith, few)) refl (omega (arith, enough))
      elim_on false = proxy_walk a rounds e (omega (arith, enough))

  vote_walk :
      (a : VoteproducerAction) (proxy : List ℕ) (rounds : ℕ)
      → t.op_details.op ≡ Operation.voteproducer a
      → name_text frame a.proxy ≡ some proxy
      → a.num_producers < 2 ^ 32 - 1
      → a.num_producers + 2 < rounds
      → walk ripemd160 stale_olen mem frame t rounds 0 (some Formatter.voteproducer_voter)
        ≡ all_fields ((codes "Vote Producer", name_text frame a.voter) ∷ choice_fields a proxy)
  vote_walk a proxy zero e named few enough = absurd (omega (arith, enough))
  vote_walk a proxy (suc rounds) e named few enough =
      walk-shown ripemd160 stale_olen mem frame t rounds 0 0 Formatter.voteproducer_voter
        (codes "Vote Producer") (name_text frame a.voter) (some (behind_voter proxy))
        (choice_fields a proxy) voter (voter_screen a proxy e named)
        (choice_walk a proxy rounds e few (omega (arith, enough)))

  vote_first :
      Format.run_formatter ripemd160 stale_olen mem frame t Formatter.voteproducer
        (blank 0 (some Formatter.voteproducer))
      ≡ some (blank 0 (some Formatter.voteproducer_voter))
  unfolding Format.run_formatter Format.format_voteproducer
  vote_first = refl

  -- The screens of a vote whose proxy's name has a text and whose producers a uint32_t counts: a
  -- blank one, the voter, and then, where the proxy's text is empty, every producer in the order of
  -- the memory, each once (one even where there are none), and otherwise the proxy alone. There are
  -- no other screens: as many rounds as producers and four more come to the end.
  pub walk-producers :
      (a : VoteproducerAction) (proxy : List ℕ) (rounds : ℕ)
      → t.op_details.op ≡ Operation.voteproducer a
      → name_text frame a.proxy ≡ some proxy
      → a.num_producers < 2 ^ 32 - 1
      → a.num_producers + 4 ≤ rounds
      → walk ripemd160 stale_olen mem frame t rounds 0 (some Formatter.voteproducer) ≡ (
          all_fields ((codes "Vote Producer", name_text frame a.voter) ∷ choice_fields a proxy)
          >>= λ rest. some (([], []) ∷ rest))
  walk-producers a proxy zero e named few enough = absurd (omega (arith, enough))
  walk-producers a proxy (suc rounds) e named few enough =
      walk-blank ripemd160 stale_olen mem frame t rounds 0 Formatter.voteproducer
        (some Formatter.voteproducer_voter) vote_first
      ∙ ap (λ (rest : Option (List Screen)). rest >>= λ rest. some (([], []) ∷ rest))
          (vote_walk a proxy rounds e named few (omega (arith, enough)))
