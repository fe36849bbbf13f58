-- ===== src/Ws/Hub/Tests.antt =====
-- One agent that connects, reconnects and falls silent.
use klever_node_hub.Prelude.{
  ◌≡◌, refl, ◌⊎◌, String, true, false, string_eq, nat_eq, lookup, insert, Option,
}
use klever_node_hub.Ws.Hub.{
  Hub, new_hub, register, send, send_to, sent, buffer_full, not_connected, panics, is_connected,
  unregister, end_connection,
}
use klever_node_hub.Ws.Hub.Connections.{
  IsSound, connections-IsSound, new_hub-IsSound, register-IsSound, send-IsSafe,
}
use klever_node_hub.Ws.Hub.Races.{IsDropped, send_races_register, end_connection-drops_successor}

abbrev one : Hub
one = (register "s1" 100 new_hub).0

one-IsSound : IsSound one
one-IsSound = register-IsSound "s1" 100 new_hub new_hub-IsSound

one_lookup : lookup "s1" one.connections ≡ Option.some 0
unfolding register new_hub lookup insert
one_lookup = refl

send-IsSafe_example :
    (is_connected "s2" one ≡ false → (send "s2" "m" one).1 ≡ not_connected)
    × (is_connected "s2" one ≡ true
        → ((send "s2" "m" one).1 ≡ sent) ⊎ ((send "s2" "m" one).1 ≡ buffer_full))
send-IsSafe_example = send-IsSafe "s2" "m" one one-IsSound

connections-IsSound_example : IsSound (register "s2" 150 one).0 × IsSound (unregister "s2" one)
connections-IsSound_example = connections-IsSound "s2" 150 one one-IsSound

send_races_register_example : (send_to 0 "m" (register "s1" 200 one).0).1 ≡ panics
send_races_register_example = send_races_register "s1" "m" 200 0 one one-IsSound one_lookup

end_connection-drops_successor_example :
    IsDropped "s1" 200 1 (register "s1" 200 one).0 (end_connection "s1" 0 (register "s1" 200 one).0)
unfolding register new_hub
end_connection-drops_successor_example =
    (end_connection-drops_successor "s1" 200 0 one one-IsSound one_lookup).3

-- The agent connects again after the scan.
abbrev reconnects : String → Hub → Hub
reconnects id h = (register "s1" 490 h).0
