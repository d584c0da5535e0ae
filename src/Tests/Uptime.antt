-- ===== src/Tests/Uptime.antt =====
-- libp2p/rpc/uptime/client.go at small inputs; a peer is a number, the interval 10 and a tick 1.
use relayer.Base.{ℕ, List, [], ◌∷◌, ◌++◌, Option, none, some, ℕ_discrete, ◌≡◌, ◌↔◌, refl, In}
use relayer.Base.Int.{ℤ, pos, negsuc}
use relayer.Base.Dict
use relayer.P2p.Uptime.{
  UpTime, int_leb, minus, in_window, tally, append_uptime, add_own, add_result, add_results,
  res_list, uptime,
}
use relayer.P2p.Uptime.Majority.{
  named, HasMajority, durations_of, own_reports, other_reports, uptime-HasMajority_iff,
}

abbrev report : ℕ → ℤ → UpTime ℕ
report id d = record { peer_id = id; dur = d }

abbrev meters : List (Option (UpTime ℕ))
meters = some (report 7 (pos 10)) ∷ none ∷ some (report 8 (pos 11)) ∷ []

abbrev results : List (Option (List (UpTime ℕ)))
results =
    some (report 7 (pos 11) ∷ report 8 (negsuc 2) ∷ [])
    ∷ none
    ∷ some (report 7 (pos 99) ∷ report 9 (pos 9) ∷ [])
    ∷ []

-- Of the peer 8 only half of the reports are within the window.
listed : uptime ℕ_discrete 10 1 meters results ≡ report 9 (pos 9) ∷ report 7 (pos 11) ∷ []
unfolding uptime res_list add_results add_result add_own append_uptime tally in_window minus int_leb
    Dict.get Dict.put Dict.delete ℕ_discrete
listed = refl

uptime-HasMajority_iff_example :
    In 7 (named (uptime ℕ_discrete 10 1 meters results))
    ↔ HasMajority 10 1 (
        durations_of ℕ_discrete 7
          (own_reports ℕ_discrete meters ++ other_reports ℕ_discrete results))
uptime-HasMajority_iff_example = uptime-HasMajority_iff ℕ_discrete 10 1 7 meters results
