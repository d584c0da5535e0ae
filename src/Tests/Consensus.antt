-- ===== src/Tests/Consensus.antt =====
-- consensus/session/tlc.go with a toy multisignature: a signature is the number of its key, and
-- aggregates are sums. Two nodes of three have to acknowledge.
use relayer.Base.{
  ℕ, ◌+◌, ◌≤◌, List, [], ◌∷◌, some, true, false, ok, panic, index_out_of_range, ◌==◌, ◌≡◌, refl,
  inl, ℕ_discrete, arith, subst,
}
use relayer.Base.Int.{pos}
use relayer.Consensus.Mask.{bit, set_bit, words, count_word, count_words, popcount}
use relayer.Consensus.Mask.Bits.{ones_below}
use relayer.Consensus.Mask.Count.{popcount-eq-ones_below}
use relayer.Consensus.Message.{Crypto, Message, prepare, prepared}
use relayer.Consensus.Session
use relayer.Consensus.Session.Prepare.{IsAwaited}
use relayer.Consensus.Session.Steps.{AllEvents}
use relayer.Consensus.Session.Invariant.{
  IsConsistent, prepared_sent, run-start-IsConsistent, start-IsConsistent,
}
use relayer.Consensus.Session.Soundness.{IsJustified, run-start-IsJustified}
use relayer.Consensus.Session.Blocking.{
  IsFrozen, IsHarmless, Returns, bad_source, bad_ack_freezes, run_total, bad_source_panics,
}
use relayer.Consensus.Session.Liveness.{CryptoLaws, IsGoodAck, HasWitness}
use relayer.Consensus.Session.Quorum.{GoodAcks, deliveries, quorum_witnesses}

popcount-eq-ones_below_example : popcount 22 ≡ some (ones_below 5 22)
popcount-eq-ones_below_example = popcount-eq-ones_below 5 22 (omega arith)

abbrev toy : Crypto
toy = record {
  Signature = ℕ;
  PublicKey = ℕ;
  PrivateKey = ℕ;
  Topic = ℕ;
  same_topic = ℕ_discrete;
  marshal = λ t. t ∷ [];
  nil_signature = 0;
  nil_public_key = 0;
  zero_signature = 0;
  zero_public_key = 0;
  empty_multisig_mask = 0;
  aggregate = λ a b. a + b;
  aggregate_keys = λ a b. a + b;
  verify_multisig = λ σ epoch key body mask. σ == key;
  multisign = λ key body epoch membership. key;
}

toy-CryptoLaws : CryptoLaws toy
toy-CryptoLaws = record {
  empty_mask = refl;
  zero-aggregate = λ σ. omega arith;
  zero-aggregate_keys = λ k. omega arith;
  verify-aggregate = λ σ τ epoch k l body mask i h h₂ h₃. ground arith;
}

abbrev two_of_three : Session.Config toy
two_of_three = record {
  id = 0;
  topic = 9;
  threshold_ack = 2;
  threshold_wit = 0;
  public_keys = 10 ∷ 11 ∷ 12 ∷ [];
  private_key = 10;
  epoch_public_key = 33;
  membership_key = 0;
}

abbrev ack_of : ℕ → ℕ → Message toy
ack_of i σ = record {
  source = pos i;
  msg_type = prepare;
  bridge_event_hash = 9;
  signature = σ;
  mask = 0;
  public_key = 0;
}

abbrev good_acks : List (Message toy)
good_acks = ack_of 2 12 ∷ ack_of 0 10 ∷ []

-- what the session broadcasts at the second acknowledgement
abbrev witnessed : Message toy
witnessed = record {
  source = pos 0;
  msg_type = prepared;
  bridge_event_hash = 9;
  signature = 22;
  mask = 5;
  public_key = 22;
}

abbrev fresh : Session.Run toy
fresh = record {
  session = record {
    config = two_of_three;
    acks = 0;
    sig_mask = 0;
    part_signature = 0;
    part_public_key = 0;
  };
  mutex_held = false;
  cancelled = false;
  receiver_waiting = true;
  agreed = 0;
  stuck = 0;
  sent = [];
}

abbrev done : Session.Run toy
done = record fresh {
  session = record {
    config = two_of_three;
    acks = 2;
    sig_mask = 5;
    part_signature = 22;
    part_public_key = 22;
  };
  sent = witnessed ∷ [];
}

abbrev agreed : Session.Run toy
agreed = record done { cancelled = true; receiver_waiting = false; agreed = 1 }

program : Unit {0}
unfolding Session.start Session.run Session.step Session.handle Session.dispatch
    Session.handle_prepare Session.handle_prepared Session.tell_agreement Session.check_sender
    Session.take_ack Session.verify_ack_signature Session.bit_index Session.key_of Session.count_ack
    Session.witness_acks Session.witness_message Session.verify_threshold_witnesses Session.signers
    popcount count_words count_word words bit set_bit ℕ_discrete bad_source
program = tt

starts_fresh : Session.start toy two_of_three ≡ fresh
unfolding program
starts_fresh = refl

abbrev all_events : List (Session.Event toy)
all_events =
    Session.deliver (some (ack_of 2 12))
    ∷ Session.deliver (some (ack_of 2 12))
    ∷ Session.deliver (some (ack_of 0 10))
    ∷ Session.deliver (some (ack_of 1 11))
    ∷ Session.deliver (some witnessed)
    ∷ []

-- A repeated acknowledgement does not count, nor does one past the threshold.
agrees : Session.run toy all_events (Session.start toy two_of_three) ≡ ok agreed
unfolding program
agrees = refl

run-start-IsJustified_example : IsJustified toy two_of_three all_events agreed
run-start-IsJustified_example = run-start-IsJustified toy two_of_three all_events agreed refl agrees

run-start-IsConsistent_example : IsConsistent toy two_of_three agreed
run-start-IsConsistent_example =
    run-start-IsConsistent toy two_of_three all_events agreed refl agrees

-- an acknowledgement of node 1 with the signature of nobody
abbrev forged : Message toy
forged = ack_of 1 99

abbrev frozen : Session.Run toy
frozen = record fresh { mutex_held = true; stuck = 2 }

freezes :
    Session.run toy (Session.deliver (some forged) ∷ deliveries toy good_acks) fresh ≡ ok frozen
unfolding program
freezes = refl

fresh-IsAwaited : IsAwaited toy forged fresh 1 11
unfolding program
fresh-IsAwaited = record {
  free = refl;
  missing = omega arith;
  from = refl;
  first = refl;
  known = refl;
}

bad_ack_freezes_example : IsFrozen toy fresh frozen
bad_ack_freezes_example =
    bad_ack_freezes toy forged fresh frozen 1 11 (deliveries toy good_acks) refl refl
      fresh-IsAwaited refl freezes

all_events-IsHarmless : AllEvents toy (IsHarmless toy two_of_three) all_events
all_events-IsHarmless = (
  (2, refl, omega arith),
  (
    (2, refl, omega arith),
    ((0, refl, omega arith), ((1, refl, omega arith), ((0, refl, omega arith), tt))),
  ),
)

run_total_example : Returns toy (Session.run toy all_events fresh)
run_total_example = run_total toy all_events fresh all_events-IsHarmless

fresh-IsConsistent : IsConsistent toy two_of_three fresh
fresh-IsConsistent =
    subst (IsConsistent toy two_of_three) starts_fresh (start-IsConsistent toy two_of_three refl)

stranger : bad_source toy two_of_three (pos 3) ≡ some index_out_of_range
unfolding program
stranger = refl

bad_source_panics_example :
    Session.step toy (Session.deliver (some (ack_of 3 13))) fresh ≡ panic index_out_of_range
bad_source_panics_example =
    bad_source_panics toy two_of_three fresh (ack_of 3 13) index_out_of_range fresh-IsConsistent
      refl refl refl (omega arith) stranger

good_acks-GoodAcks : GoodAcks toy two_of_three 0 good_acks
unfolding program
good_acks-GoodAcks = (2, good_ack 2 12 refl refl refl, (0, good_ack 0 10 refl refl refl, tt))
  where
    good_ack :
        (i key : ℕ) {mask : ℕ}
        → Session.key_of toy two_of_three i ≡ ok key
        → bit mask i ≡ 0
        → (key == key) ≡ true
        → IsGoodAck toy two_of_three (ack_of i key) mask i
    good_ack i key known first verified = record {
      topic = refl;
      is_prepare = refl;
      source = refl;
      key = key;
      known = known;
      first = first;
      verified = verified;
    }

quorum_witnesses_example :
    (r : Session.Run toy) × (Session.run toy
        (deliveries toy good_acks)
        (Session.start toy two_of_three)
      ≡ ok r)
    × HasWitness toy two_of_three r
    × (r.mutex_held ≡ false)
    × (r.session.acks ≡ 2)
    × (prepared_sent toy r.sent ≤ 1)
quorum_witnesses_example =
    quorum_witnesses toy toy-CryptoLaws two_of_three good_acks good_acks-GoodAcks refl (omega arith)

done-HasWitness : HasWitness toy two_of_three done
unfolding program
done-HasWitness = record {
  message = witnessed;
  sent = inl refl;
  is_prepared = refl;
  topic = refl;
  passes = refl;
}

-- The node with the number 2 of the same session.
abbrev follower : Session.Config toy
follower = record two_of_three { id = 2 }
