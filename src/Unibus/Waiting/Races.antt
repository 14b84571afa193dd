-- ===== src/Unibus/Waiting/Races.antt =====
-- Calls whose answer comes before or after they wait.
use xmachine.Base.{ℕ, ◌≡◌, refl, ◌∙◌, ◌⊎◌, arith, true, false, List, [], ◌∷◌}
use xmachine.Unibus.Types.{r_done, r_none, DataBusReq, dbm_resp, Port}
use xmachine.Unibus.Master.{start_read, start_write, start_write_b}
use xmachine.Unibus.DataBus.{take_master, process_op, handle_resp, is_for_master, is_transfer}
use xmachine.Unibus.Waiting.Orders.{IsReady, is_call, answered}
use xmachine.Unibus.Waiting.{
  posted, asleep, Calls, Turn, reads, writes, writes_b, sleeps, sends, receives, sent, turn, turns,
}

-- The answer has come, and the call has not returned.
pub record Missed (s : Calls) : Type 0 where
  pub in_call : (s.caller ≡ posted) ⊎ (s.caller ≡ asleep)
  pub answered : s.port.bus.master.op ≡ r_done
  pub over : s.port.thread.req_issued ≡ false
  pub sent_all : s.port.thread.buffer.op ≡ r_none

-- Its request has been sent.
record Sent (s : Calls) : Type 0 where
  caller : s.caller ≡ posted
  master : s.port.bus.is_master ≡ true
  issued : s.port.thread.req_issued ≡ true
  settled : s.port.bus.master.op ≡ r_none
  sent_all : s.port.thread.buffer.op ≡ r_none

module _ (junk : ℕ) where
  not_for_master :
      (p : Port) (event : DataBusReq) → p.thread.req_issued ≡ false → is_for_master p event ≡ false
  unfolding is_for_master
  not_for_master p event h = ground arith

  -- Its round finds nothing to send.
  sent-Missed : (s : Calls) → Missed s → Missed (record s { port = sent junk s.port })
  unfolding take_master process_op
  sent-Missed s h = rw (h.answered, h.sent_all) (ground arith)

  turn-Missed : (t : Turn) (s : Calls) → Missed s → Missed (turn junk t s)
  unfolding turn
  turn-Missed (reads addr) s h = ground arith
  turn-Missed (writes addr value) s h = ground arith
  turn-Missed (writes_b addr value) s h = ground arith
  turn-Missed sleeps s h = ground arith
  turn-Missed sends s h = sent-Missed s h
  turn-Missed (receives event) s h =
      let other : is_for_master s.port event ≡ false = not_for_master s.port event h.over in
      rw other h

  turn-returned : (t : Turn) (s : Calls) → Missed s → (turn junk t s).returned ≡ s.returned
  unfolding turn
  turn-returned (reads addr) s h = ground arith
  turn-returned (writes addr value) s h = ground arith
  turn-returned (writes_b addr value) s h = ground arith
  turn-returned sleeps s h = refl
  turn-returned sends s h = refl
  turn-returned (receives event) s h =
      let other : is_for_master s.port event ≡ false = not_for_master s.port event h.over in
      rw other refl

  turns-Missed :
      (ts : List Turn) (s : Calls)
      → Missed s
      → Missed (turns junk ts s) × ((turns junk ts s).returned ≡ s.returned)
  unfolding turns
  turns-Missed [] s h = (h, refl)
  turns-Missed (t ∷ ts) s h =
      let (missed, same) = turns-Missed ts (turn junk t s) (turn-Missed t s h) in
      (missed, same ∙ turn-returned t s h)

  call-Sent :
      (call : Turn) (s : Calls)
      → is_call call ≡ true
      → IsReady s
      → Sent (turn junk sends (turn junk call s))
  unfolding turn start_read start_write start_write_b take_master process_op
  call-Sent (reads addr) s e h = rw (h.caller, h.master) (ground arith)
  call-Sent (writes addr value) s e h = rw (h.caller, h.master) (ground arith)
  call-Sent (writes_b addr value) s e h = rw (h.caller, h.master) (ground arith)
  call-Sent _ s e h = absurd (cc)

  response-Missed :
      (event : DataBusReq) (s : Calls)
      → event.msg_type ≡ dbm_resp
      → is_transfer event.c ≡ true
      → Sent s
      → Missed (turn junk (receives event) s)
        × ((turn junk (receives event) s).returned ≡ s.returned)
  unfolding turn is_for_master handle_resp
  response-Missed event s m c h = ground arith

  call-returned :
      (call : Turn) (s : Calls)
      → is_call call ≡ true
      → (turn junk sends (turn junk call s)).returned ≡ s.returned
  unfolding turn
  call-returned (reads addr) s e = ground arith
  call-returned (writes addr value) s e = ground arith
  call-returned (writes_b addr value) s e = ground arith
  call-returned _ s e = absurd (cc)

  -- If the answer comes after a master's call has put down its request but before it waits, the
  -- signal is lost: whatever the two threads do and receive from then on, the call never returns.
  pub answer_before_wait :
      (call : Turn) (event : DataBusReq) (s : Calls) (ts : List Turn)
      → is_call call ≡ true
      → IsReady s
      → event.msg_type ≡ dbm_resp
      → is_transfer event.c ≡ true
      → let s' = turns junk (call ∷ sends ∷ receives event ∷ ts) s in
        ((s'.caller ≡ posted) ⊎ (s'.caller ≡ asleep)) × (s'.returned ≡ s.returned)
  unfolding turns
  answer_before_wait call event s ts e h m c =
      let sent_state : Sent (turn junk sends (turn junk call s)) = call-Sent call s e h in
      let (missed, same) =
        response-Missed event (turn junk sends (turn junk call s)) m c sent_state in
      let (still, same') = turns-Missed ts _ missed in
      (still.in_call, same' ∙ same ∙ call-returned call s e)
