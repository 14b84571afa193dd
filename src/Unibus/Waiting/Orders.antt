-- ===== src/Unibus/Waiting/Orders.antt =====
-- A call from its request to its answer, over any turns of the two threads in between.
use xmachine.Base.{
  ℕ, ◌≡◌, refl, sym, subst, ◌⊎◌, inl, inr, Bool, true, false, ◌||◌, if◌then◌else◌, some, List, [],
  ◌∷◌,
}
use xmachine.Unibus.Types.{
  r_in, r_out, r_outb, r_none, DataBusReq, MsgType, dbm_req, dbm_resp, Port,
}
use xmachine.Unibus.Master.{start_read, start_write, start_write_b, finish}
use xmachine.Unibus.DataBus.{take_master, process_op, handle_resp, is_for_master, is_transfer}
use xmachine.Unibus.Waiting.{
  Caller, free, posted, asleep, Calls, Turn, reads, writes, writes_b, sleeps, sends, receives, sent,
  turn, turns,
}

-- A bus master between two calls.
pub record IsReady (s : Calls) : Type 0 where
  pub caller : s.caller ≡ free
  pub master : s.port.bus.is_master ≡ true
  pub settled : s.port.bus.master.op ≡ r_none
  pub sent_all : s.port.thread.buffer.op ≡ r_none

abbrev pub is_call : Turn → Bool
is_call (reads addr) = true
is_call (writes addr value) = true
is_call (writes_b addr value) = true
is_call _ = false

-- Turns in which no answer arrives.
abbrev is_request : MsgType → Bool
is_request dbm_req = true
is_request dbm_resp = false

request_lem : (m : MsgType) → is_request m ≡ true → m ≡ dbm_req
request_lem dbm_req e = refl
request_lem dbm_resp e = absurd (cc)

abbrev is_quiet : Turn → Bool
is_quiet (receives event) = is_request event.msg_type
is_quiet _ = true

abbrev pub AreQuiet : List Turn → Type 0
AreQuiet [] = Unit
AreQuiet (t ∷ ts) = (is_quiet t ≡ true) × AreQuiet ts

-- Whether the call goes to sleep in some turns, and whether the thread of the bus has a round.
abbrev is_sleep : Turn → Bool
is_sleep sleeps = true
is_sleep _ = false

abbrev is_send : Turn → Bool
is_send sends = true
is_send _ = false

abbrev pub has_sleep : List Turn → Bool
has_sleep [] = false
has_sleep (t ∷ ts) = is_sleep t || has_sleep ts

abbrev pub has_send : List Turn → Bool
has_send [] = false
has_send (t ∷ ts) = is_send t || has_send ts

-- Some turns, then others.
abbrev pub then_turns : List Turn → List Turn → List Turn
then_turns [] rest = rest
then_turns (t ∷ ts) rest = t ∷ then_turns ts rest

exchanged : (a b c : Bool) → (b || (a || c)) ≡ ((a || b) || c)
exchanged true true c = refl
exchanged true false c = refl
exchanged false true c = refl
exchanged false false c = refl

-- A call under way, by whether it sleeps and whether its request is sent.
abbrev place : Bool → Caller
place slept = if slept then asleep else posted

abbrev Stage : Bool → Port → Type 0
Stage true p = (p.thread.req_issued ≡ true) × (p.bus.master.op ≡ r_none)
Stage false p = (p.bus.master.op ≡ r_in) ⊎ (p.bus.master.op ≡ r_out) ⊎ (p.bus.master.op ≡ r_outb)

pub record InCall (slept issued : Bool) (s : Calls) : Type 0 where
  pub caller : s.caller ≡ place slept
  pub master : s.port.bus.is_master ≡ true
  pub sent_all : s.port.thread.buffer.op ≡ r_none
  pub stage : Stage issued s.port

module _ (junk : ℕ) where
  pub call-InCall :
      (call : Turn) (s : Calls)
      → is_call call ≡ true
      → IsReady s
      → InCall false false (turn junk call s)
  unfolding turn start_read start_write start_write_b
  call-InCall (reads addr) s e h =
      rw h.caller
        (record { caller = refl; master = h.master; sent_all = h.sent_all; stage = inl refl })
  call-InCall (writes addr value) s e h =
      rw h.caller
        (record { caller = refl; master = h.master; sent_all = h.sent_all; stage = inr (inl refl) })
  call-InCall (writes_b addr value) s e h =
      rw h.caller
        (record { caller = refl; master = h.master; sent_all = h.sent_all; stage = inr (inr refl) })
  call-InCall _ s e h = absurd (cc)

  settled_lem : (p : Port) → p.bus.master.op ≡ r_none → take_master p ≡ p
  unfolding take_master
  settled_lem p e = rw e refl

  resend-InCall :
      (slept : Bool) (s : Calls)
      → InCall slept true s
      → InCall slept true (record s { port = sent junk s.port })
  unfolding process_op
  resend-InCall slept s h =
      subst
        (λ p. InCall slept true (record s {
          port = if p.bus.is_master then record p { thread = (process_op junk p.thread).1 } else p;
        }))
        (sym (settled_lem s.port h.stage.1))
        (rw (h.master, h.sent_all)
          (record { caller = h.caller; master = refl; sent_all = refl; stage = h.stage }))

  -- A round of the thread, before and after the request is sent.
  send-InCall :
      (slept issued : Bool) (s : Calls)
      → InCall slept issued s
      → InCall slept true (record s { port = sent junk s.port })
  unfolding take_master process_op
  send-InCall slept true s h = resend-InCall slept s h
  send-InCall slept false s h = elim h.stage [
    | inl e ↦
        rw (e, h.master)
          (record { caller = h.caller; master = refl; sent_all = refl; stage = (refl, refl) })
    | inr (inl e) ↦
        rw (e, h.master)
          (record { caller = h.caller; master = refl; sent_all = refl; stage = (refl, refl) })
    | inr (inr e) ↦
        rw (e, h.master)
          (record { caller = h.caller; master = refl; sent_all = refl; stage = (refl, refl) })
  ]

  -- A caller whose place is known.
  restated :
      {slept now issued : Bool} {s : Calls}
      → InCall slept issued s
      → InCall now issued (record s { caller = place now })
  restated h = record { caller = refl; master = h.master; sent_all = h.sent_all; stage = h.stage }

  turn-InCall :
      (t : Turn) (slept issued : Bool) (s : Calls)
      → is_quiet t ≡ true
      → InCall slept issued s
      → InCall (is_sleep t || slept) (is_send t || issued) (turn junk t s)
  unfolding turn is_for_master
  turn-InCall (reads addr) true issued s q h = rw h.caller (restated h)
  turn-InCall (reads addr) false issued s q h = rw h.caller (restated h)
  turn-InCall (writes addr value) true issued s q h = rw h.caller (restated h)
  turn-InCall (writes addr value) false issued s q h = rw h.caller (restated h)
  turn-InCall (writes_b addr value) true issued s q h = rw h.caller (restated h)
  turn-InCall (writes_b addr value) false issued s q h = rw h.caller (restated h)
  turn-InCall sleeps true issued s q h = rw h.caller (restated h)
  turn-InCall sleeps false issued s q h = rw h.caller (restated h)
  turn-InCall sends slept issued s q h = send-InCall slept issued s h
  turn-InCall (receives event) slept issued s q h = rw (request_lem event.msg_type q) h

  pub turns-InCall :
      (ts rest : List Turn) (slept issued : Bool) (s : Calls)
      → AreQuiet ts
      → InCall slept issued s
      → (s' : Calls) × InCall (has_sleep ts || slept) (has_send ts || issued) s'
        × (turns junk (then_turns ts rest) s ≡ turns junk rest s')
  unfolding turns
  turns-InCall [] rest slept issued s q h = (s, h, refl)
  turns-InCall (t ∷ ts) rest slept issued s q h =
      let (s', h', same) =
        turns-InCall ts rest (is_sleep t || slept) (is_send t || issued) (turn junk t s) q.1
          (turn-InCall t slept issued s q.0 h) in
      (
        s',
        subst (λ b. InCall b (has_send (t ∷ ts) || issued) s')
            (exchanged (is_sleep t) (has_sleep ts) slept)
            (subst (λ b. InCall (has_sleep ts || (is_sleep t || slept)) b s')
              (exchanged (is_send t) (has_send ts) issued) h'),
        same,
      )

  pub answered :
      (event : DataBusReq) (s : Calls)
      → event.msg_type ≡ dbm_resp
      → is_transfer event.c ≡ true
      → InCall true true s
      → let s' = turn junk (receives event) s in
        (s'.caller ≡ free)
        × (s'.returned ≡ some event.datum)
        × (s'.port.bus.master.op ≡ r_none)
        × (s'.port.thread.req_issued ≡ false)
  unfolding turn is_for_master handle_resp finish
  answered event s m c h =
      let (issued, settled) = h.stage in
      rw (m, h.master, issued, c, h.caller) (refl, refl, refl, refl)
