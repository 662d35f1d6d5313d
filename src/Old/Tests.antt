-- ===== src/Old/Tests.antt =====
-- "ls" at both servers.
use cloud_sys.Base.{◌≡◌, ◌++◌, refl, true, [], ◌∷◌, some, arith}
use cloud_sys.Clients.{Table, init, find, is_client, occupy, get_client_state, touch}
use cloud_sys.Clients.Lookup.{init-IsValid, get_client_state-IsValid}
use cloud_sys.Tlv.{Arrivals, le_bytes}
use cloud_sys.Tlv.Send.{image}
use cloud_sys.Tlv.Receive.{stream}
use cloud_sys.Commands.{Outside}
use cloud_sys.Dispatch.{Main, handled, run_short}
use cloud_sys.Dispatch as Dispatch
use cloud_sys.Start.Tests.{silent, no_files, first}
use cloud_sys.Old.Main.{readable}
use cloud_sys.Old.Drops.{IsDropped, ls_packet, readable-ls}

abbrev outside : Outside
outside = record { draws = []; memory = λ n. true; before = 0; freed = λ r. r }

-- Client 7 has the first slot.
abbrev seven : Table
seven = (get_client_state 7 20 init).1

abbrev main : Main silent no_files
main = record first.main { table = seven; watched = 7 ∷ [] }

seven-found : find (is_client 7) seven.states ≡ some 0
unfolding get_client_state find init occupy
seven-found = refl

-- The packet, and the byte that begins the next one.
abbrev segments : Arrivals
segments = some (3 ∷ 0 ∷ 0 ∷ []) ∷ some (0 ∷ 0 ∷ 0 ∷ 2 ∷ []) ∷ []

segments-image : stream segments ≡ image 3 [] ++ 2 ∷ []
unfolding image le_bytes
segments-image = refl

readable-ls_example :
    (rest : Arrivals) × (stream rest ≡ 2 ∷ [])
    × ((u : Main silent no_files) × (readable silent no_files outside 7 20 20 segments main
          ≡ handled u rest)
        × IsDropped silent no_files 7 main u)
    × (Dispatch.readable silent no_files outside 7 20 20 segments main
        ≡ run_short silent no_files outside 7 0 ls_packet
            (record main { table = touch 0 20 seven })
            rest)
readable-ls_example =
    readable-ls silent no_files outside 7 20 20 0 segments (2 ∷ []) main
      (get_client_state-IsValid 7 20 init init-IsValid) seven-found (omega arith, (omega arith, tt))
      segments-image
