-- ===== src/Node/Setup/Heard.antt =====
-- What the variables of `BlsSetup` (node/bridge/node.go) hold of the messages that came.
use relayer.Base.{
  ℕ, ◌-◌, ◌^◌, ◌<◌, ◌==◌, ltb, ◌&&◌, ◌||◌, not, List, [], ◌∷◌, Bool, true, false, Option, none,
  some, Outcome, ok, panic, index_out_of_range, >>=-eq-ok, if◌then◌else◌, get_elem?, ◌≡◌, refl, sym,
  ap, ◌∙◌, subst, arith, ℕ_discrete,
}
use relayer.Base.Int.{ℤ, pos, negsuc}
use relayer.Consensus.Mask.{bit}
use relayer.Consensus.Mask.Bits.{bit-zero}
use relayer.Node.Setup.{
  SetupCrypto, SetupType, bls_setup_phase, bls_setup_parts, other_type, MessageBlsSetup, BlsSetup,
  clear_bit_pos, clear_bit, is_zero, all_ones, start_setup, answer_setup, take_part, verify_part,
  part_from, handle_parts, handle_type, handle_setup, handle_all,
}
use relayer.Node.Setup.Bits.{
  bit-clear_bit_pos_self, bit-clear_bit_pos_ne, nonzero_bit, bit_all_ones, all_ones_pos,
}

module _ (c : SetupCrypto) (id : ℕ) (np : ℕ) where
  abbrev pub brought_by : SetupType → ℤ → Option c.Signature → Option (ℕ × c.Signature)
  brought_by bls_setup_parts (pos source) (some part) = some (source, part)
  brought_by t source part = none

  -- The part that a message brings for the node, with its source.
  abbrev pub brought : Option (MessageBlsSetup c) → Option (ℕ × c.Signature)
  brought none = none
  brought (some msg) = brought_by msg.msg_type msg.source (get_elem? msg.membership_key_parts id)

  -- how a message changes what has been taken
  abbrev pub with_brought :
      Option (ℕ × c.Signature) → List (ℕ × c.Signature) → List (ℕ × c.Signature)
  with_brought none taken = taken
  with_brought (some t) taken = t ∷ taken

  -- The parts of some messages before others that are given, the last first, whether they
  -- verify or not.
  abbrev pub taken_by :
      List (Option (MessageBlsSetup c)) → List (ℕ × c.Signature) → List (ℕ × c.Signature)
  taken_by [] taken = taken
  taken_by (msg ∷ msgs) taken = taken_by msgs (with_brought (brought msg) taken)

  abbrev pub gathered : List (ℕ × c.Signature) → c.Signature
  gathered [] = c.zero_signature
  gathered ((source, part) ∷ taken) = c.aggregate (gathered taken) part

  abbrev pub heard : ℕ → List (ℕ × c.Signature) → Bool
  heard i [] = false
  heard i ((source, part) ∷ taken) = (source == i) || heard i taken

  -- What holds of the variables when some parts have been taken.
  pub record IsSetup (taken : List (ℕ × c.Signature)) (s : BlsSetup c) : Type 0 where
    pub mask : ℕ
    pub masked : s.received_mask ≡ pos mask
    pub bits : (i : ℕ) → bit mask i ≡ (if ltb i np && not (heard i taken) then 1 else 0)
    pub key : s.membership_key ≡ gathered taken
    pub over : s.cancelled ≡ true → (i : ℕ) → i < np → heard i taken ≡ true
    pub ended : mask ≡ 0 → s.cancelled ≡ true

  pub start-IsSetup : 0 < np → np < 64 → IsSetup [] (start_setup c id np)
  unfolding start_setup all_ones
  start-IsSetup some_nodes few = record {
    mask = 2 ^ np - 1;
    masked = ground (arith, few);
    bits = λ i. bit_all_ones np i ∙ ground arith;
    key = refl;
    over = λ e. absurd (cc);
    ended = λ e. absurd (omega (arith, e, all_ones_pos np some_nodes));
  }

  take_part-bits :
      (taken : List (ℕ × c.Signature)) (part : c.Signature) (source mask : ℕ)
      → ((i : ℕ) → bit mask i ≡ (if ltb i np && not (heard i taken) then 1 else 0))
      → (i : ℕ)
      → bit (clear_bit_pos mask source) i
        ≡ (if ltb i np && not (heard i ((source, part) ∷ taken)) then 1 else 0)
  take_part-bits taken part source mask h i = elim (ℕ_discrete source i) [
    | yes here ↦
        let off =
          subst (λ j. bit (clear_bit_pos mask source) j ≡ 0) here
            (bit-clear_bit_pos_self mask source) in
        ground (arith, off, here)
    | no other ↦ ground (arith, bit-clear_bit_pos_ne mask source i other, h i, other)
  ]

  take_part-IsSetup :
      (taken : List (ℕ × c.Signature)) (s : BlsSetup c) (part : c.Signature) (source : ℕ)
      → IsSetup taken s
      → IsSetup ((source, part) ∷ taken) (take_part c id np part source s)
  unfolding take_part clear_bit is_zero
  take_part-IsSetup taken s part source h =
      let mask = clear_bit_pos h.mask source in
      let masked : clear_bit s.received_mask source ≡ pos mask =
        ap (λ m. clear_bit m source) h.masked in
      let tested : is_zero (clear_bit s.received_mask source) ≡ (mask == 0) = ap is_zero masked in
      let bits = take_part-bits taken part source h.mask h.bits in
      record {
        mask = mask;
        masked = masked;
        bits = bits;
        key = ap (λ k. c.aggregate k part) h.key;
        over = λ e i p. elim (ℕ_discrete mask 0) [
          | yes none_left ↦
              let off = ap (λ m. bit m i) none_left ∙ bit-zero i in ground (arith, off, bits i)
          | no some_left ↦
              let before : s.cancelled ≡ true = ground (arith, e, tested, some_left) in
              ground (arith, h.over before i p)
        ];
        ended = λ e. ground (arith, e, tested);
      }

  part_from-IsSetup :
      (taken : List (ℕ × c.Signature)) (s s' : BlsSetup c) (part : c.Signature) (source : ℤ)
      → IsSetup taken s
      → part_from c id np part source s ≡ ok s'
      → (n : ℕ) × (source ≡ pos n) × IsSetup ((n, part) ∷ taken) s'
  unfolding part_from verify_part
  part_from-IsSetup taken s s' part (negsuc n) h e = absurd (cc)
  part_from-IsSetup taken s s' part (pos n) h e =
      let next : take_part c id np part n s ≡ s' = ground (arith, e) in
      (n, refl, subst (IsSetup ((n, part) ∷ taken)) next (take_part-IsSetup taken s part n h))

  same_ok : {A : Type 0} {x y : A} → ok x ≡ ok y → x ≡ y
  same_ok e = cc

  handle_parts-IsSetup :
      (taken : List (ℕ × c.Signature)) (s s' : BlsSetup c) (source : ℤ) (o : Option c.Signature)
      → IsSetup taken s
      → (elim o as (λ x. Outcome (BlsSetup c)) [
        | none ↦ panic index_out_of_range
        | some part ↦ part_from c id np part source s
      ])
        ≡ ok s'
      → IsSetup (with_brought (brought_by bls_setup_parts source o) taken) s'
  handle_parts-IsSetup taken s s' source none h e = absurd (cc)
  handle_parts-IsSetup taken s s' source (some part) h e =
      let (n, same, k) = part_from-IsSetup taken s s' part source h e in
      subst (λ m. IsSetup (with_brought (brought_by bls_setup_parts m (some part)) taken) s')
        (sym same) k

  handle_type-IsSetup :
      (t : SetupType) (msg : MessageBlsSetup c) (taken : List (ℕ × c.Signature)) (s s' : BlsSetup c)
      → IsSetup taken s
      → handle_type c id np t msg s ≡ ok s'
      → IsSetup
          (with_brought (brought_by t msg.source (get_elem? msg.membership_key_parts id)) taken)
          s'
  unfolding handle_type handle_parts answer_setup
  handle_type-IsSetup bls_setup_phase msg taken s s' h e =
      subst (IsSetup taken) (same_ok e) (record {
        mask = h.mask;
        masked = h.masked;
        bits = h.bits;
        key = h.key;
        over = h.over;
        ended = h.ended;
      })
  handle_type-IsSetup bls_setup_parts msg taken s s' h e =
      handle_parts-IsSetup taken s s' msg.source (get_elem? msg.membership_key_parts id) h e
  handle_type-IsSetup other_type msg taken s s' h e = subst (IsSetup taken) (same_ok e) h

  handle_setup-IsSetup :
      (taken : List (ℕ × c.Signature)) (s s' : BlsSetup c) (msg : Option (MessageBlsSetup c))
      → IsSetup taken s
      → handle_setup c id np msg s ≡ ok s'
      → IsSetup (with_brought (brought msg) taken) s'
  unfolding handle_setup
  handle_setup-IsSetup taken s s' none h e = subst (IsSetup taken) (same_ok e) h
  handle_setup-IsSetup taken s s' (some msg) h e =
      handle_type-IsSetup msg.msg_type msg taken s s' h e

  pub handle_all-IsSetup :
      (msgs : List (Option (MessageBlsSetup c))) (taken : List (ℕ × c.Signature))
      (s s' : BlsSetup c)
      → IsSetup taken s
      → handle_all c id np msgs s ≡ ok s'
      → IsSetup (taken_by msgs taken) s'
  unfolding handle_all
  handle_all-IsSetup [] taken s s' h e = subst (IsSetup taken) (same_ok e) h
  handle_all-IsSetup (msg ∷ msgs) taken s s' h e =
      let (next, one, rest) = >>=-eq-ok (handle_setup c id np msg s) (handle_all c id np msgs) e in
      handle_all-IsSetup msgs _ next s' (handle_setup-IsSetup taken s next msg h one) rest

  pub no_bits :
      (taken : List (ℕ × c.Signature)) (mask : ℕ)
      → ((i : ℕ) → bit mask i ≡ (if ltb i np && not (heard i taken) then 1 else 0))
      → ((i : ℕ) → i < np → heard i taken ≡ true)
      → mask ≡ 0
  no_bits taken mask bits all = elim (ℕ_discrete mask 0) [
    | yes e ↦ e
    | no some_left ↦
        let (i, on) = nonzero_bit mask (omega (arith, some_left)) in
        ground (arith, on, bits i, all i)
  ]
