-- ===== src/P2p/Uptime.antt =====
-- libp2p/rpc/uptime/client.go: how the leader of an epoch makes one list out of the uptimes that it
-- measured and those that the other nodes report. A duration is an int64 of Go, here an integer;
-- the reporting interval and the ticker's are those of the configuration. What the calls of
-- go-libp2p and its registry of meters yield is an argument: for each meter the peer and its time,
-- none where the peer's name cannot be decoded, and for each node asked its list, none with an
-- error. A Go map is ranged over in any order; the list has the order of the association list.
pub mod Majority
use relayer.Base.{
  ℕ, suc, ◌+◌, ◌-◌, ◌/◌, List, [], ◌∷◌, ◌++◌, Option, none, some, Bool, true, false, leb, ltb, ◌&&◌,
  if◌then◌else◌, length,
}
use relayer.Base.Int.{ℤ, pos, negsuc}
use relayer.Base.Dict

unfoldable pub int_leb : ℤ → ℤ → Bool
int_leb (pos a) (pos b) = leb a b
int_leb (pos a) (negsuc b) = false
int_leb (negsuc a) (pos b) = true
int_leb (negsuc a) (negsuc b) = leb b a

unfoldable pub minus : ℕ → ℕ → ℤ
minus a b = if leb b a then pos (a - b) else negsuc (b - a - 1)

pub record UpTime (Peer : Type 0) : Type 0 where
  pub peer_id : Peer
  pub dur : ℤ

-- A duration differs from the reporting interval by at most one tick.
unfoldable pub in_window : ℕ → ℕ → ℤ → Bool
in_window interval ticker duration =
    int_leb (minus interval ticker) duration && int_leb duration (pos (interval + ticker))

-- the inner loop: the count and the longest duration in the window
unfoldable pub tally : ℕ → ℕ → List ℤ → ℕ → ℤ → ℕ × ℤ
tally interval ticker [] cnt dur = (cnt, dur)
tally interval ticker (duration ∷ durations) cnt dur =
    let counted =
      tally interval ticker durations (suc cnt) (if int_leb duration dur then dur else duration) in
    let skipped = tally interval ticker durations cnt dur in
    if in_window interval ticker duration then counted else skipped

module _ {Peer : Type 0} (dec : Discrete Peer) where
  -- `uptimes[id] = append(uptimes[id], duration)`, with the list made first where it is missing
  unfoldable pub append_uptime : Peer → ℤ → List (Peer × List ℤ) → List (Peer × List ℤ)
  append_uptime peer_id dur uptimes = elim (Dict.get dec peer_id uptimes) [
    | some durations ↦ Dict.put dec peer_id (durations ++ (dur ∷ [])) uptimes
    | none ↦ Dict.put dec peer_id (dur ∷ []) uptimes
  ]

  -- the callback of `ForEach`, on all meters
  unfoldable pub add_own : List (Option (UpTime Peer)) → List (Peer × List ℤ) → List (Peer × List ℤ)
  add_own [] uptimes = uptimes
  add_own (none ∷ meters) uptimes = add_own meters uptimes
  add_own (some u ∷ meters) uptimes = add_own meters (append_uptime u.peer_id u.dur uptimes)

  unfoldable pub add_result : List (UpTime Peer) → List (Peer × List ℤ) → List (Peer × List ℤ)
  add_result [] uptimes = uptimes
  add_result (u ∷ us) uptimes = add_result us (append_uptime u.peer_id u.dur uptimes)

  -- the loop over the answers
  unfoldable pub add_results :
      List (Option (List (UpTime Peer))) → List (Peer × List ℤ) → List (Peer × List ℤ)
  add_results [] uptimes = uptimes
  add_results (none ∷ results) uptimes = add_results results uptimes
  add_results (some us ∷ results) uptimes = add_results results (add_result us uptimes)

  -- the last loop, which makes the list
  unfoldable pub res_list : ℕ → ℕ → List (Peer × List ℤ) → List (UpTime Peer)
  res_list interval ticker [] = []
  res_list interval ticker ((id, durations) ∷ uptimes) =
      let t = tally interval ticker durations 0 (pos 0) in
      let rest = res_list interval ticker uptimes in
      if ltb (length durations / 2) t.0 then record { peer_id = id; dur = t.1 } ∷ rest else rest

  unfoldable pub uptime :
      ℕ → ℕ → List (Option (UpTime Peer)) → List (Option (List (UpTime Peer))) → List (UpTime Peer)
  uptime interval ticker meters results =
      res_list interval ticker (add_results results (add_own meters []))
