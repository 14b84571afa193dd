-- ===== src/Examples/BusWitnesses.antt =====
-- The theorems on the priority bus, the arbiter and the a.out reader, applied to small systems.
use xmachine.Base.{ℕ, ◌≡◌, refl, arith, true, false, none, some, List, [], ◌∷◌, ◌++◌, ◌⊎◌}
use xmachine.Outcome.{done}
use xmachine.Mem.{load_aout}
use xmachine.Mem.Loading.{bytes_of, with_bytes}
use xmachine.Priority.Types.{PrSignal, PrBusReq, Device, running}
use xmachine.Priority.Manager.{Action, requests, releases, waits, polls, run, fresh}
use xmachine.Priority.Handlers.{request_master, handle_bg}
use xmachine.Priority.Wires.{broadcast, forward, get_fd_direction}
use xmachine.Priority.History.{history, master_was_granted}
use xmachine.Priority.Granting.{IsMaster, IsReleased, request_is_granted, release_is_done}
use xmachine.Arbiter.{ArbState, message, failed, init_arb, listen_priority}
use xmachine.Arbiter.Silence.{Quiet, silent_under_sack}
use xmachine.Arbiter.Loss.{grants_are_lost}
use xmachine.Load.{AoutHeader, AoutObject, header_of, header_refs, aout_read}
use xmachine.Load.Files.{aout_read_lem, load_aout-aout_read}
use xmachine.Examples.Systems.{
  Network, network, network-Succeeds, network-ReusesNumbers, network-Delivers, quiet, mem_wires,
  grant, one_file, one_file-Opens, table, table-Succeeds, table-Accounts, deaf, deaf-Refuses,
  deaf-Accounts,
}
use xmachine.Examples.Programs.{memory_of}
use xmachine.Unibus.Types.{DataBusReq, MsgType, Signal, init_port}
use xmachine.Unibus.Send.{init_wires, send_msg}
use xmachine.Unibus.Send.Descriptors.{send_msg_lem}
use xmachine.Unibus.Send.Leaks.{send_each, unheard_messages_leak}
use xmachine.Unibus.Waiting.{
  free, posted, asleep, Calls, reads, sleeps, sends, receives, turns, writes,
}
use xmachine.Unibus.Waiting.Orders.{IsReady}
use xmachine.Unibus.Waiting.Races.{answer_before_wait}

abbrev handshake : List Action
handshake =
    requests ∷ waits ∷ polls none ∷ polls (some (grant true)) ∷ polls (some (grant false)) ∷ []

master_was_granted_example :
    (history handshake 0 ≡ 3)
    × ((run network handshake (fresh mem_wires)).flags.sack_asserted ≡ true)
unfolding run handle_bg request_master broadcast get_fd_direction forward
master_was_granted_example = master_was_granted network mem_wires handshake refl

request_is_granted_example : IsMaster (run network handshake (fresh mem_wires))
request_is_granted_example =
    request_is_granted network network-Succeeds network-ReusesNumbers (fresh mem_wires) (grant true)
      (grant false) refl refl refl refl refl refl refl refl

-- A device that is master.
abbrev granted : Device Network
granted = record {
  wires = mem_wires;
  flags = record {
    npr_issued = false;
    br_issued = false;
    sack_asserted = true;
    bbsy_asserted = true;
  };
  bus = record { is_master = true; req_master = false; rel_master = false };
  main = running;
}

release_is_done_example : IsReleased (run network (releases ∷ waits ∷ polls none ∷ []) granted)
release_is_done_example = release_is_done network network-Succeeds granted refl refl refl refl

-- A bus request, and an error, while SACK is asserted.
abbrev sacked : ArbState Network
sacked = record (init_arb 0 quiet) { sack = true; outstanding_bg = true }

abbrev request : PrSignal → PrBusReq
request sig = record (grant true) { sig = sig }

silent_under_sack_example :
    Quiet network sacked
      (listen_priority network 11 11
        (message (request PrSignal.br) ∷ failed 11 ∷ message (request PrSignal.bbsy) ∷ [])
        sacked).1
silent_under_sack_example =
    silent_under_sack network 11 11
      (message (request PrSignal.br) ∷ failed 11 ∷ message (request PrSignal.bbsy) ∷ []) sacked refl
      refl

grants_are_lost_example :
    (listen_priority network 11 11
      (message (request PrSignal.br) ∷ [])
      (init_arb 0 quiet)).1.net.log
    ≡ []
grants_are_lost_example =
    grants_are_lost network 0 (network-Delivers 0) 11 11 (message (request PrSignal.br) ∷ []) quiet

-- A file with a text of two words.
abbrev two_words : AoutHeader
two_words = header_of (0o407 ∷ 4 ∷ [])

abbrev file : List ℕ → List ℕ
file text = bytes_of (header_refs two_words ++ text)

aout_read_lem_example :
    (aout_read one_file 0 (file (0o5200 ∷ []))).0
    ≡ some (record { header = two_words; text = 0o5200 ∷ 0 ∷ [] })
aout_read_lem_example =
    aout_read_lem one_file 0 3 (file (0o5200 ∷ [])) (file (0o5200 ∷ []))
      (one_file-Opens 0 (file (0o5200 ∷ []))) two_words (0o5200 ∷ []) refl

load_aout-aout_read_example :
    (aout : AoutObject) × ((aout_read one_file 0 (file (0o5200 ∷ 7 ∷ 9 ∷ []))).0 ≡ some aout)
    × (load_aout aout.header.a_text aout.text 6 (memory_of [])
        ≡ done (with_bytes (128 ∷ 10 ∷ 7 ∷ 0 ∷ []) 6 (memory_of [])))
load_aout-aout_read_example =
    load_aout-aout_read one_file 0 3 (file (0o5200 ∷ 7 ∷ 9 ∷ [])) (file (0o5200 ∷ 7 ∷ 9 ∷ []))
      (one_file-Opens 0 (file (0o5200 ∷ 7 ∷ 9 ∷ []))) two_words (0o5200 ∷ 7 ∷ []) (9 ∷ []) 6
      (memory_of []) refl (omega arith, (omega arith, tt)) refl (omega arith)

-- The answer to a read, and a processor between two calls.
abbrev answer : DataBusReq
answer = record {
  msg_type = MsgType.dbm_resp;
  c = Signal.d_dati;
  addr = 6;
  datum = 42;
  ssyn = true;
}

abbrev between_calls : Calls
between_calls = record { port = init_port true; caller = free; returned = none }

between_calls-IsReady : IsReady between_calls
between_calls-IsReady = record { caller = refl; master = refl; settled = refl; sent_all = refl }

abbrev finished : Calls
finished =
    turns 0 (reads 6 ∷ sends ∷ writes 8 1 ∷ sleeps ∷ sends ∷ receives answer ∷ []) between_calls

abbrev stuck : Calls
stuck =
    turns 0 (reads 6 ∷ sends ∷ receives answer ∷ sleeps ∷ sends ∷ receives answer ∷ [])
      between_calls

answer_before_wait_example :
    ((stuck.caller ≡ posted) ⊎ (stuck.caller ≡ asleep)) × (stuck.returned ≡ none)
answer_before_wait_example =
    answer_before_wait 0 (reads 6) answer between_calls (sleeps ∷ sends ∷ receives answer ∷ []) refl
      between_calls-IsReady refl refl

-- A message from a device with a neighbour on its right only.
send_msg_lem_example :
    let (sent_all, w') = send_msg table answer (init_wires none (some 2) none (some 3) 4) in
    (sent_all ≡ true) × (w'.net ≡ 4) × (w'.d_bus_out_l ≡ none) × (w'.d_bus_out_r ≡ none)
send_msg_lem_example =
    send_msg_lem table table-Succeeds table-Accounts answer
      (init_wires none (some 2) none (some 3) 4)

-- Three messages, with a neighbour on each side.
unheard_messages_leak_example :
    let w' =
      send_each deaf (answer ∷ answer ∷ answer ∷ []) (init_wires (some 1) (some 2) none none 4) in
    ((send_msg deaf answer w').0 ≡ true) × (w'.net ≡ 10)
unheard_messages_leak_example =
    unheard_messages_leak deaf deaf-Refuses deaf-Accounts (answer ∷ answer ∷ answer ∷ []) answer
      (init_wires (some 1) (some 2) none none 4)
