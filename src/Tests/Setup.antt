-- ===== src/Tests/Setup.antt =====
-- `BlsSetup` of node/bridge/node.go at small inputs. A signature is the list of the parts in it, and
-- a part verifies if it is even.
use relayer.Base.{
  ℕ, ◌%◌, ◌==◌, List, [], ◌∷◌, ◌++◌, true, false, Option, none, some, ok, panic, index_out_of_range,
  ◌≡◌, refl,
}
use relayer.Base.Int.{ℤ, pos, negsuc}
use relayer.Consensus.Mask.{set_bit}
use relayer.Node.Setup.{
  SetupCrypto, bls_setup_parts, MessageBlsSetup, BlsSetup, clear_bit_pos, clear_bit, is_zero,
  all_ones, start_setup, parts_from, answer_setup, take_part, verify_part, part_from, handle_parts,
  handle_type, handle_setup, handle_all, returns, bls_setup,
}

abbrev pub lists : SetupCrypto
lists = record {
  Signature = List ℕ;
  zero_signature = [];
  aggregate = λ xs ys. xs ++ ys;
  generate_membership_key_part = λ i. i ∷ [];
  verify_membership_key_part = λ xs source. elim xs [ [] ↦ false | x ∷ rest ↦ x % 2 == 0 ];
}

abbrev pub parts_of : ℤ → List (List ℕ) → Option (MessageBlsSetup lists)
parts_of source parts =
    some (record { source = source; msg_type = bls_setup_parts; membership_key_parts = parts })

setup_code : Unit {0}
unfolding set_bit clear_bit_pos clear_bit is_zero all_ones start_setup parts_from answer_setup
    take_part verify_part part_from handle_parts handle_type handle_setup handle_all returns
    bls_setup
setup_code = tt

-- The part 7 does not verify, and is in the key all the same.
abbrev pub two_parts : List (Option (MessageBlsSetup lists))
two_parts =
    parts_of (pos 1) ((4 ∷ []) ∷ (7 ∷ []) ∷ [])
    ∷ none
    ∷ parts_of (pos 0) ((8 ∷ []) ∷ (6 ∷ []) ∷ [])
    ∷ []

abbrev two_taken : BlsSetup lists
two_taken = record {
  received_mask = pos 0;
  membership_key = 7 ∷ 6 ∷ [];
  cancelled = true;
  sent = [];
}

gathers : handle_all lists 1 2 two_parts (start_setup lists 1 2) ≡ ok two_taken
unfolding setup_code
gathers = refl

whole_key : bls_setup lists 1 2 two_parts false ≡ ok (some (7 ∷ 6 ∷ []))
unfolding setup_code
whole_key = refl

-- With one part of two it waits, and returns a partial key if a receive fails.
abbrev one_part : List (Option (MessageBlsSetup lists))
one_part = parts_of (pos 1) ((4 ∷ []) ∷ (7 ∷ []) ∷ []) ∷ []

still_waits : bls_setup lists 1 2 one_part false ≡ ok none
unfolding setup_code
still_waits = refl

partial_key : bls_setup lists 1 2 one_part true ≡ ok (some (7 ∷ []))
unfolding setup_code
partial_key = refl

-- A source that is no index of the keys stops the node.
crashes :
    bls_setup lists 1 2 (parts_of (negsuc 0) ([] ∷ [] ∷ []) ∷ []) false ≡ panic index_out_of_range
unfolding setup_code
crashes = refl

-- Among 64 nodes the mask is negative, and stays so.
too_many : clear_bit (all_ones 64) 3 ≡ negsuc 8
unfolding setup_code
too_many = refl
