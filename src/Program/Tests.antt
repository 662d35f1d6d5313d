-- ===== src/Program/Tests.antt =====
-- A server that has started, and gets an upload.
use cloud_sys.Base.Int.{pos}
use cloud_sys.Base.{◌≡◌, ◌++◌, refl, false, true, List, [], ◌∷◌, none, some, arith}
use cloud_sys.CString.{Bytes}
use cloud_sys.Queue.{LongCommand}
use cloud_sys.Queue.Refinement.{Refines}
use cloud_sys.Tlv.{Packet, Arrivals, returns, recv_tlv, le_bytes}
use cloud_sys.Tlv.Send.{image}
use cloud_sys.Tlv.Receive.{stream, recv_tlv-image}
use cloud_sys.Commands.{Outside}
use cloud_sys.Dispatch.Turn.{data_on, listener, Round, check_time}
use cloud_sys.Dispatch.Sound.{IsSound}
use cloud_sys.Pool.{Worker, ThreadPool, start, thread_init, locked}
use cloud_sys.Program.{Program, turns, no_connection, Reaches, at_once, and_then, begun}
use cloud_sys.Program.Reached.{Reaches-in_order}
use cloud_sys.Start.{first_loop}
use cloud_sys.Start.Tests.{silent, no_files, dbms, net, raw, first, starting}

abbrev outside : Outside
outside = record { draws = []; memory = λ n. true; before = 0; freed = λ r. r }

-- A packet of type 13, PUTS.
abbrev value : Bytes
value = b'a' ∷ b'|' ∷ b'b' ∷ []

abbrev upload : Packet
upload = record { type = 13; len = 3; value = value }

abbrev segments : Arrivals
segments = some (13 ∷ 0 ∷ 0 ∷ 0 ∷ 3 ∷ 0 ∷ value) ∷ []

segments-image : stream segments ≡ image 13 value ++ []
unfolding image le_bytes
segments-image = refl

arrived : (rest : Arrivals) × (recv_tlv segments ≡ returns (pos 3) upload rest) × (stream rest ≡ [])
arrived = recv_tlv-image 13 value [] segments (omega arith) (omega arith) segments-image

abbrev round : Round
round = record {
  ready_set = listener none ∷ data_on 7 segments outside ∷ [];
  current_time = 20;
  now = 20;
}

abbrev ready : Program silent no_files
ready = record (begun silent no_files first (start raw)) {
  current_time = 20;
  todo = data_on 7 segments outside ∷ [];
}

still_open : (start raw).pool.exit_flag ≡ false
unfolding thread_init
still_open = refl

reaching : Reaches silent no_files (begun silent no_files first (start raw)) ready
unfolding first_loop check_time
reaching =
    and_then (and_then at_once (turns round still_open refl)) (no_connection _ still_open refl)

Reaches-in_order_example :
    (queue : List LongCommand) × Refines ready.pool.pool.task_queue queue
    × (ready.loop.main.queue ≡ ready.pool.taken ++ queue)
    × ((r : Worker × ThreadPool) × (locked ready.pool.pool ≡ some r))
    × IsSound silent no_files ready.loop.main
Reaches-in_order_example =
    Reaches-in_order silent dbms no_files net raw false 20 4 tt 5 7 first (start raw) 5 (some 6)
      starting ready reaching
